-- ===== src/TaskPool/Graph/Install/Finish.antt =====
-- task_pool/graph/exec/node_exec.rs: `install_expansion` and `finish` as wholes.
use griffr.Common.{
  ℕ, suc, ◌+◌, ◌≤◌, ◌<◌, ◌≡◌, refl, ◌∙◌, subst, inl, inr, Bool, true, false, Option, none, some,
  List, [], ◌∷◌, map, arith, Bool-cases, Option-cases, nat_eq, length, get_elem?, length-map,
  text_eq, Map, nat_order, text_order, flagged_eq, flagged_order,
}
use griffr.TaskPool.Graph.{node_limit, Result, ok, NodeState, is_state, TaskGraph, Work}
use griffr.TaskPool.Graph.Expansion.{
  ExpansionNode, TaskRun, run_succeeded, run_cancelled, run_failed, run_continue, run_expand,
  run_expand_then,
}
use griffr.TaskPool.Graph.Resolve.{
  check_ids, Resolved, terminals_from, finish_dependents_of, bind_locals,
}
use griffr.TaskPool.Graph.Install.{
  bind_nodes, append_nodes, wait_for, settle_fuel, plan_expansion, settle_new, commit_expansion,
  install_expansion, finish_run, finish,
}
use griffr.TaskPool.Graph.Lookup.{node_of, node_of-get_elem?}
use griffr.TaskPool.Graph.Sound.{is_due, in_range, IsSound, IsForward, Extends, IsForward-Extends}
use griffr.TaskPool.Graph.Operations.{
  IsStable, activate_all-Keeps, none_due_of, total_open-le-length, adds_none, finish_run-Stays,
}
use griffr.TaskPool.Graph.Resolve.Inversion.{
  AllBackward, any_failed, >>=_inversion, Found, resolve_dependencies-Found,
}
use griffr.TaskPool.Graph.Install.Grown.{doomed_from}
use griffr.TaskPool.Graph.Install.Grow.{
  append_links, grown_length, grown-IsSound, grown_state, grown-IsForward, grown_not_due,
  grown_blocked,
}
use griffr.TaskPool.Graph.Install.Installed.{
  check_ids_lem, wait_for-Keeps, IsBlocked, IsBlocked-Extends, cancel_blocked-Keeps,
  terminals-in_range, bind_nodes_in_range,
}

pub ok_agree {ℓ} : {A : Type ℓ} {m : Result A} {a b : A} → m ≡ ok a → m ≡ ok b → a ≡ b
ok_agree p q = cc

module _ {ℓ} {T : Type ℓ} (g : TaskGraph T) where
  -- What the plan of an expansion finds.
  record IsPlan (nodes : List (ExpansionNode T)) (r : Resolved) : Type ℓ where
    small : length g.nodes + length nodes ≤ node_limit
    after_parent : List ℕ
    bound : Map ℕ ℕ
    dependencies : List (List ℕ)
    found :
        Found g after_parent bound 0 [] nodes
          (record {
            dependencies = [];
            blocked = map (λ _. false) nodes;
            out_degree = map (λ _. 0) nodes;
          })
          r
          dependencies

  plan_expansion-IsPlan :
      (id : ℕ) (x : ExpansionNode T) (xs : List (ExpansionNode T)) (r : Resolved)
      → IsStable g
      → plan_expansion g id (x ∷ xs) ≡ ok r
      → IsPlan (x ∷ xs) r
  unfolding plan_expansion
  plan_expansion-IsPlan id x xs r v e =
      >>=_inversion (check_ids (length g.nodes) (length (x ∷ xs))) _ r e λ u small e1.
        >>=_inversion (bind_locals g.bindings 0 (x ∷ xs) []) _ r e1 λ bound _ e2.
          >>=_inversion (finish_dependents_of g.nodes id) _ r e2 λ after _ e3.
            let (dss, f) =
              resolve_dependencies-Found g after bound 0 [] (x ∷ xs) _ v.bound_in_range refl refl
                e3 in
            record {
              small = check_ids_lem (length g.nodes) (length xs) small;
              after_parent = after;
              bound = bound;
              dependencies = dss;
              found = f;
            }

  -- The graph with the new nodes, before the parent waits.
  record IsGrown (xs : List (ExpansionNode T)) (marks : List Bool) (h : TaskGraph T) : Type ℓ where
    sound : IsSound [] (doomed_from (length g.nodes) marks) h
    size : length h.nodes ≡ length g.nodes + length xs
    old_state : (i : ℕ) → i < length g.nodes → (node_of h.nodes i).state ≡ (node_of g.nodes i).state
    old_not_due :
        (i : ℕ)
        → i < length g.nodes
        → is_due (node_of g.nodes i) ≡ false
        → is_due (node_of h.nodes i) ≡ false
    forward : IsForward g → IsForward h
    blocked : IsBlocked h (doomed_from (length g.nodes) marks)
    bound : h.bindings ≡ bind_nodes (length g.nodes) xs g.bindings

  append_nodes-IsGrown :
      (xs : List (ExpansionNode T)) (dss : List (List ℕ)) (h : TaskGraph T)
      → IsSound [] [] g
      → length dss ≡ length xs
      → AllBackward (length g.nodes) dss
      → length g.nodes + length xs ≤ node_limit
      → append_nodes g xs dss ≡ ok h
      → IsGrown xs (map (any_failed g.nodes) dss) h
  unfolding append_nodes
  append_nodes-IsGrown xs dss h s each back small e =
      let (ms, made, a) = append_links g s xs dss each back small in
      subst (IsGrown xs (map (any_failed g.nodes) dss))
        (ok_agree {m = append_nodes g xs dss} (rw made refl) e)
        (record {
          sound = grown-IsSound g s xs dss each back small ms a;
          size = grown_length g s xs dss each back small ms a;
          old_state = grown_state g s xs dss each back small ms a;
          old_not_due = grown_not_due g s xs dss each back small ms a;
          forward = grown-IsForward g s xs dss each back small ms a;
          blocked = grown_blocked g s xs dss each back small ms a;
          bound = refl;
        })

  module _ (v : IsStable g) (xs : List (ExpansionNode T)) (marks : List Bool)
      (each : length marks ≡ length xs) where
    -- The waiting parent and the loops over the new nodes.
    settle_new-IsStable :
        (h : TaskGraph T) (w : Work T) {r : Work T}
        → IsGrown xs marks h
        → IsSound [] (doomed_from (length g.nodes) marks) w.graph
        → Extends h w.graph
        → settle_new (length g.nodes) (length xs) marks w ≡ ok r
        → IsStable r.graph
    unfolding settle_new settle_fuel
    settle_new-IsStable h w {r} after s on e =
        let (c, made, (sound, on')) =
          cancel_blocked-Keeps (suc (length w.graph.nodes)) (length g.nodes) marks w s
            (IsBlocked-Extends h w.graph _ (after.blocked) on)
            (omega (arith, on.same_length, after.size))
            (omega (arith, total_open-le-length w.graph.nodes)) in
        let (r', made', ((sound', on''), idle)) =
          activate_all-Keeps (length g.nodes) (length xs) c sound
            (omega (arith, on.same_length, after.size, on'.same_length))
            (λ i lt. on'.never_due i (on.never_due i (after.old_not_due i lt (v.none_due i)))) in
        let stable : IsStable r'.graph = record {
          sound = sound';
          none_due = none_due_of r'.graph.nodes (λ i lt. idle i (omega (arith, on''.same_length)));
          forward =
              IsForward-Extends c.graph r'.graph
                (IsForward-Extends w.graph c.graph
                  (IsForward-Extends h w.graph (after.forward v.forward) on) on')
                on'';
          bound_in_range = λ token i found. rw (on''.same_length) (
              bind_nodes_in_range (length g.nodes) xs g.bindings (length c.graph.nodes)
                (omega (arith, on.same_length, after.size, on'.same_length))
                (λ t j f.
                  omega
                    (arith, v.bound_in_range t j f, on.same_length, after.size, on'.same_length))
                token i
                (rw (← after.bound, ← on.same_bindings, ← on'.same_bindings, ← on''.same_bindings)
                  found));
        } in
        let reached : settle_new (length g.nodes) (length xs) marks w ≡ ok r' = rw made made' in
        subst (λ (k : Work T). IsStable k.graph) (ok_agree reached e) stable

    -- A parent without anything to wait for is refused.
    wait_for-IsStable :
        (id : ℕ) (next : Option T) (ids : List ℕ) (h : TaskGraph T) {w : Work T}
        → IsGrown xs marks h
        → id < length g.nodes
        → (node_of g.nodes id).state ≡ NodeState.running
        → in_range h.nodes ids ≡ true
        → wait_for id next ids (record { graph = h; started = [] }) ≡ ok w
        → IsSound [] (doomed_from (length g.nodes) marks) w.graph × Extends h w.graph
    unfolding wait_for
    wait_for-IsStable id next [] h after lt busy inside e = absurd (ground (arith, e))
    wait_for-IsStable id next (i ∷ ids) h {w} after lt busy inside e =
        let (w', made, kept) =
          wait_for-Keeps (doomed_from (length g.nodes) marks) id next i ids
            (record { graph = h; started = [] }) (after.sound) inside (omega (arith, after.size))
            (after.old_state id lt ∙ busy) in
        subst
          (λ (k : Work T).
            IsSound [] (doomed_from (length g.nodes) marks) k.graph × Extends h k.graph)
          (ok_agree {m = wait_for id next (i ∷ ids) (record { graph = h; started = [] })} made e)
          kept

  module _ (v : IsStable g) (id : ℕ) (lt : id < length g.nodes)
      (busy : (node_of g.nodes id).state ≡ NodeState.running) (next : Option T)
      (x : ExpansionNode T) (xs : List (ExpansionNode T)) where
    commit_expansion-IsStable :
        (found : Resolved) {r : Work T}
        → IsPlan (x ∷ xs) found
        → commit_expansion id (x ∷ xs) next (record { graph = g; started = [] }) found ≡ ok r
        → IsStable r.graph
    unfolding commit_expansion
    commit_expansion-IsStable found {r} p e =
        let f = p.found in
        >>=_inversion (append_nodes g (x ∷ xs) found.dependencies) _ r e λ h made e1.
          >>=_inversion
            (wait_for id next (terminals_from (length g.nodes) found.out_degree)
              (record { graph = h; started = [] }))
            _ r e1
            λ w made' e2.
              let after : IsGrown (x ∷ xs) (map (any_failed g.nodes) p.dependencies) h =
                append_nodes-IsGrown (x ∷ xs) p.dependencies h v.sound f.one_each
                  (subst (λ k. AllBackward k p.dependencies) (omega arith) (f.all_backward)) p.small
                  (rw (← f.more_dependencies) made) in
              let marks_size : length (map (any_failed g.nodes) p.dependencies) ≡ length (x ∷ xs) =
                omega (arith, length-map (any_failed g.nodes) p.dependencies, f.one_each) in
              let (sound, on) =
                wait_for-IsStable v (x ∷ xs) (map (any_failed g.nodes) p.dependencies) marks_size id
                  next (terminals_from (length g.nodes) found.out_degree) h after lt busy
                  (terminals-in_range h.nodes (length g.nodes) found.out_degree (
                    omega (
                      arith,
                      after.size,
                      f.same_degrees,
                      length-map {B = ℕ} (λ (_ : ExpansionNode T). 0) (x ∷ xs),
                    )))
                  made' in
              settle_new-IsStable v (x ∷ xs) (map (any_failed g.nodes) p.dependencies) marks_size h
                w {r = r} after sound on (rw (← f.all_marked) e2)

    install-IsStable :
        {r : Work T}
        → install_expansion id (x ∷ xs) next (record { graph = g; started = [] }) ≡ ok r
        → IsStable r.graph
    unfolding install_expansion
    install-IsStable {r} e = >>=_inversion (plan_expansion g id (x ∷ xs)) _ r e λ found planned e1.
        commit_expansion-IsStable found (plan_expansion-IsPlan id x xs found v planned) e1

module _ {ℓ} {T : Type ℓ} (g : TaskGraph T) (id : ℕ) where
  state_of_running :
      (state : NodeState) → is_state state NodeState.running ≡ true → state ≡ NodeState.running
  state_of_running state h = ground (arith, h)

  -- A call of `finish` that succeeds is for a running node.
  pub finish_running :
      (run : TaskRun T) {r : Work T}
      → finish g id run ≡ ok r
      → (id < length g.nodes)
        × ((node_of g.nodes id).state ≡ NodeState.running)
        × (finish_run id run (record { graph = g; started = [] }) ≡ ok r)
  unfolding finish
  finish_running run {r} e = elim (Option-cases (get_elem? g.nodes id)) [
    | inl missing ↦ absurd (ground (arith, e))
    | inr (n, found) ↦
        let (lt, same) = node_of-get_elem? g.nodes id found in
        elim (Bool-cases (is_state n.state NodeState.running)) [
          | inr other ↦ absurd (ground (arith, e))
          | inl busy ↦ (lt, ground (arith, state_of_running n.state busy), ground (arith, e))
        ]
  ]

  module _ (v : IsStable g) (lt : id < length g.nodes)
      (busy : (node_of g.nodes id).state ≡ NodeState.running) where
    by_plain_run :
        (run : TaskRun T) {r : Work T}
        → adds_none run ≡ true
        → finish_run id run (record { graph = g; started = [] }) ≡ ok r
        → IsStable r.graph
    by_plain_run run {r} plain e =
        let (r', made, (stable, on)) = finish_run-Stays g id v lt busy run plain in
        subst (λ (k : Work T). IsStable k.graph) (ok_agree made e) stable

    finish_run-IsStable :
        (run : TaskRun T) {r : Work T}
        → finish_run id run (record { graph = g; started = [] }) ≡ ok r
        → IsStable r.graph
    unfolding finish_run
    finish_run-IsStable run_succeeded e = by_plain_run run_succeeded refl e
    finish_run-IsStable run_cancelled e = by_plain_run run_cancelled refl e
    finish_run-IsStable (run_failed reason report) e =
        by_plain_run (run_failed reason report) refl e
    finish_run-IsStable (run_continue task) e = by_plain_run (run_continue task) refl e
    finish_run-IsStable (run_expand []) e = by_plain_run (run_expand []) refl e
    finish_run-IsStable (run_expand (x ∷ xs)) e = install-IsStable g v id lt busy none x xs e
    finish_run-IsStable (run_expand_then [] task) e = by_plain_run (run_expand_then [] task) refl e
    finish_run-IsStable (run_expand_then (x ∷ xs) task) e =
        install-IsStable g v id lt busy (some task) x xs e

  -- Whatever the outcome of a run, the graph that `finish` returns is stable.
  pub finish-IsStable :
      (run : TaskRun T) {r : Work T} → IsStable g → finish g id run ≡ ok r → IsStable r.graph
  finish-IsStable run v e =
      let (lt, busy, made) = finish_running run e in finish_run-IsStable v lt busy run made

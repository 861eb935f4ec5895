-- ===== src/TaskPool/Graph/Run.antt =====
-- task_pool/graph: the graphs of a command, from its builder through the calls of the scheduler.
use griffr.Common.{
  ℕ, ◌≡◌, refl, ap, ◌∙◌, subst, none, some, List, [], arith, nat_eq, length, text_eq, Map, get,
  nat_order, text_order, flagged_eq, flagged_order,
}
use griffr.TaskPool.Graph.{ok, TaskGraph, Work, mark_running}
use griffr.TaskPool.Graph.Builder.{BuilderNode, add_task, build_checked}
use griffr.TaskPool.Graph.Expansion.{TaskRun}
use griffr.TaskPool.Graph.Install.{start, finish}
use griffr.TaskPool.Graph.Operations.{IsStable, Stays, start-IsStable, mark_running-IsStable}
use griffr.TaskPool.Graph.Builder.Build.{IsBuilder, add_task-IsBuilder}
use griffr.TaskPool.Graph.Builder.Fresh.{IsFresh, build_checked-IsFresh}
use griffr.TaskPool.Graph.Install.Finish.{ok_agree, finish-IsStable}

-- The builders that calls of `add_task` make.
pub data Built {ℓ} {T : Type ℓ} : List (BuilderNode T) → Type ℓ where
  empty : Built []
  added :
      {nodes : List (BuilderNode T)} (task : T) (dependencies : List ℕ)
      {r : List (BuilderNode T) × ℕ}
      → Built nodes
      → add_task nodes task dependencies ≡ ok r
      → Built r.0

-- The graphs that the scheduler sees: it starts a built graph, marks ready nodes as running, and
-- hands back the outcome of each run.
pub data Reachable {ℓ} {T : Type ℓ} : TaskGraph T → Type ℓ where
  begun :
      {builder : List (BuilderNode T)} {g : TaskGraph T} {w : Work T}
      → Built builder
      → build_checked builder ≡ ok g
      → start g ≡ ok w
      → Reachable w.graph
  marked : {g h : TaskGraph T} (id : ℕ) → Reachable g → mark_running g id ≡ ok h → Reachable h
  finished :
      {g : TaskGraph T} (id : ℕ) (run : TaskRun T) {w : Work T}
      → Reachable g
      → finish g id run ≡ ok w
      → Reachable w.graph

no_binding : {bindings : Map ℕ ℕ} (token id : ℕ) → bindings ≡ [] → get bindings token ≡ some id → ⊥
unfolding get
no_binding {bindings} token id e found = let missing : get bindings token ≡ none = rw e refl in cc

module _ {ℓ} {T : Type ℓ} where
  pub Built-IsBuilder : {nodes : List (BuilderNode T)} → Built nodes → IsBuilder nodes
  Built-IsBuilder empty = record { backward = tt; within = omega arith }
  Built-IsBuilder (added {nodes} task dependencies b e) =
      (add_task-IsBuilder nodes task dependencies (Built-IsBuilder b) e).0

  build_checked-bindings :
      (builder : List (BuilderNode T)) {g : TaskGraph T}
      → build_checked builder ≡ ok g
      → g.bindings ≡ []
  unfolding build_checked
  build_checked-bindings builder e = ground (arith, e)

  -- A builder that calls of add_task have made builds a graph of as many nodes, all pending with
  -- edges to later nodes only, and start returns on it, leaving a sound graph in which no pending
  -- node is without a dependency.
  pub Built-starts :
      {builder : List (BuilderNode T)}
      → Built builder
      → (g : TaskGraph T) × (build_checked builder ≡ ok g)
        × (length g.nodes ≡ length builder)
        × IsFresh g
        × Stays g (start g)
  Built-starts {builder} b =
      let (g, e, (sound, fresh, size)) = build_checked-IsFresh builder (Built-IsBuilder b) in
      (
        g,
        e,
        size,
        fresh,
        start-IsStable g sound fresh.forward (λ token id found.
            absurd (no_binding token id (build_checked-bindings builder e) found)),
      )

  pub Reachable-IsStable : {g : TaskGraph T} → Reachable g → IsStable g
  Reachable-IsStable (begun {builder} {g} {w} b e s) =
      let (h, e', size, fresh, (v, s', (stable, on))) = Built-starts b in
      let same : start h ≡ ok w = ap start (ok_agree e' e) ∙ s in
      subst (λ (k : Work T). IsStable k.graph) (ok_agree s' same) stable
  Reachable-IsStable (marked {g} id r e) = (mark_running-IsStable g id (Reachable-IsStable r) e).0
  Reachable-IsStable (finished {g} id run r e) = finish-IsStable g id run (Reachable-IsStable r) e

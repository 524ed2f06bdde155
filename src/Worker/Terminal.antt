-- ===== src/Worker/Terminal.antt =====
-- A finished execution stays finished (src/local_agent_dispatch/worker/state.py).
use local_agent_dispatch.Api.Contracts.{
  HostRegistration, ExecutionHandle, ExecutionState, exited, failed, cancelled, lost, accepted,
  running, unknown,
}
use local_agent_dispatch.Prelude.Dict
use local_agent_dispatch.Prelude.Keys.{string_eq, ◌=?◌}
use local_agent_dispatch.Prelude.{
  ◌<◌, String, ◌≡◌, refl, subst, Bool-cases, ◌⊎◌, inl, inr, Bool, true, Option, none, some, List,
  [], ◌∷◌, arith,
}
use local_agent_dispatch.Worker.State.{
  WorkerState, ok, Identity, remember, execution_identity, transition_allowed,
}
use local_agent_dispatch.Worker.Apply.{
  Json, Message, register, report_capability, report_resource, beat, report_execution, apply,
  state_after, deliver,
}
use local_agent_dispatch.Worker.Accepts.{
  Succeeds, IsLegal, apply_registration-eq-ok, apply_capability_snapshot-eq-ok,
  apply_resource_snapshot-eq-ok, apply_heartbeat-eq-ok, apply_execution_handle-eq-ok,
}
use local_agent_dispatch.Worker.Invariant.{
  IsWellFormed, state_after_ind, apply-IsWellFormed, deliver_from-IsWellFormed,
}
use local_agent_dispatch.Worker.History.{fence_of_same, deliver-stale_handle_gone, accepted-Keeps}

abbrev pub IsTerminal : ExecutionState → Type 0
IsTerminal exited = Unit
IsTerminal failed = Unit
IsTerminal cancelled = Unit
IsTerminal lost = Unit
IsTerminal _ = ⊥

-- The table leads from a terminal state to itself only.
terminal_stays : (a b : ExecutionState) → IsTerminal a → transition_allowed a b ≡ true → b ≡ a
unfolding transition_allowed
terminal_stays accepted b t h = absurd t
terminal_stays running b t h = absurd t
terminal_stays unknown b t h = absurd t
terminal_stays _ b t h = ground arith

-- The handle is live in the state `final`, or the generation that it belongs to is over.
record HasEnded (k : String) (i : Identity) (final : ExecutionState) (s : WorkerState)
    : Type 0 where
  bound : Dict.get k s.execution_identities ≡ some i
  ended :
      ((h : ExecutionHandle) × (Dict.get k s.execution_handles ≡ some h) × (h.state ≡ final))
      ⊎ ((p : HostRegistration) × (s.registration ≡ some p) × (i.fence_token < p.fence_token))

some_fence :
    {o : Option Identity} {i j : Identity} → o ≡ some i → o ≡ some j → i.fence_token ≡ j.fence_token
some_fence e f = cc

-- A legal move from a live handle in a terminal state keeps the state.
legal_final :
    (json : Json) {o : Option ExecutionHandle} (h c : ExecutionHandle) {final : ExecutionState}
    → IsTerminal final
    → o ≡ some h
    → h.state ≡ final
    → IsLegal json o c
    → c.state ≡ final
legal_final json {o} h c {final} terminal live st legal =
    let allowed : transition_allowed h.state c.state ≡ true =
      subst (λ x. IsLegal json x c) live legal in
    terminal_stays final c.state terminal
      (subst (λ (x : ExecutionState). transition_allowed x c.state ≡ true) st allowed)

module _ (json : Json) (k : String) (i : Identity) (final : ExecutionState)
    (terminal : IsTerminal final) (s : WorkerState) (w : IsWellFormed s) where
  -- A new generation ends an execution of this one.
  registered_after-HasEnded :
      (r : HostRegistration) (o : Option HostRegistration) (h : ExecutionHandle)
      → s.registration ≡ o
      → Succeeds json o r
      → Dict.get k s.execution_handles ≡ some h
      → i.fence_token ≡ h.fence_token
      → i.fence_token < r.fence_token
  registered_after-HasEnded r none h u succeeds live same =
      let owned = w.handle_owned k h live in cc (owned.active)
  registered_after-HasEnded r (some q) h u succeeds live same =
      let owned = w.handle_owned k h live in
      omega (arith, owned.same_fence, fence_of_same owned.active u, succeeds.2)

  live_after :
      (m : Message) (b : Bool) (s' : WorkerState) (h : ExecutionHandle)
      → apply json m s ≡ ok (b, s')
      → Dict.get k s.execution_identities ≡ some i
      → Dict.get k s.execution_handles ≡ some h
      → h.state ≡ final
      → ((h' : ExecutionHandle) × (Dict.get k s'.execution_handles ≡ some h') × (h'.state ≡ final))
        ⊎ ((p : HostRegistration) × (s'.registration ≡ some p) × (i.fence_token < p.fence_token))
  unfolding apply remember
  live_after (register r) b s' h e bound live st = elim (apply_registration-eq-ok json r s e) [
    | inl (_, same) ↦ rw same (inl (h, live, st))
    | inr (_, succeeds, done) ↦
        let kept = w.identity_kept k h live in
        let same = some_fence bound kept in
        rw done
          (inr (r, refl, registered_after-HasEnded r s.registration h refl succeeds live same))
  ]
  live_after (report_capability c) b s' h e bound live st =
      elim (apply_capability_snapshot-eq-ok json c s e) [
        | inl (_, same) ↦ rw same (inl (h, live, st))
        | inr (_, _, _, done) ↦ rw done (inl (h, live, st))
      ]
  live_after (report_resource c) b s' h e bound live st =
      elim (apply_resource_snapshot-eq-ok json c s e) [
        | inl (_, same) ↦ rw same (inl (h, live, st))
        | inr (_, _, _, done) ↦ rw done (inl (h, live, st))
      ]
  live_after (beat c) b s' h e bound live st = elim (apply_heartbeat-eq-ok json c s e) [
    | inl (_, same) ↦ rw same (inl (h, live, st))
    | inr (_, _, _, done) ↦ rw done (inl (h, live, st))
  ]
  live_after (report_execution c) b s' h e bound live st =
      elim (apply_execution_handle-eq-ok json c s e) [
        | inl (_, same) ↦ rw same (inl (h, live, st))
        | inr (_, _, _, _, legal, done) ↦ rw done (elim (Bool-cases (c.handle_id =? k)) [
          | inl named ↦
              let e : c.handle_id ≡ k = (string_eq.beq_iff c.handle_id k).0 named in
              inl (
                c,
                ground (arith, Dict.get-put c.handle_id k c s.execution_handles),
                legal_final json h c terminal (rw e live) st legal,
              )
          | inr other ↦
              inl (h, ground (arith, Dict.get-put c.handle_id k c s.execution_handles), st)
        ])
      ]

  accepted-HasEnded :
      (m : Message) (b : Bool) (s' : WorkerState)
      → apply json m s ≡ ok (b, s')
      → HasEnded k i final s
      → HasEnded k i final s'
  accepted-HasEnded m b s' e h = record {
    bound = (accepted-Keeps json s m b s' e).identities k i h.bound;
    ended = elim h.ended [
      | inl (c, live, st) ↦ live_after m b s' c e h.bound live st
      | inr (p, active, older) ↦
          let (r, now, _, _, low) = (accepted-Keeps json s m b s' e).registered p active in
          inr (r, now, omega arith)
    ];
  }

deliver-HasEnded :
    (json : Json) (k : String) (i : Identity) (final : ExecutionState) (ms : List Message)
    (s : WorkerState)
    → IsTerminal final
    → IsWellFormed s
    → HasEnded k i final s
    → HasEnded k i final (deliver json ms s)
unfolding deliver
deliver-HasEnded json k i final [] s t w h = h
deliver-HasEnded json k i final (m ∷ ms) s t w h =
    deliver-HasEnded json k i final ms (state_after s (apply json m s)) t
      (apply-IsWellFormed json s m w)
      (state_after_ind (HasEnded k i final) s (apply json m s) h
        (λ b s' e. accepted-HasEnded json k i final t s w m b s' e h))

-- From a well-formed state, a live handle in a terminal state (exited, failed, cancelled or lost)
-- never changes its state again: whatever is delivered later, the identifier has a live handle in
-- that same state, or it has none.
pub deliver-terminal_absorbs :
    (json : Json) (ms : List Message) (s : WorkerState) (k : String) (h : ExecutionHandle)
    → IsWellFormed s
    → Dict.get k s.execution_handles ≡ some h
    → IsTerminal h.state
    → (Dict.get k (deliver json ms s).execution_handles ≡ none)
      ⊎ ((h' : ExecutionHandle) × (Dict.get k (deliver json ms s).execution_handles ≡ some h')
          × (h'.state ≡ h.state))
unfolding deliver
deliver-terminal_absorbs json ms s k h w live terminal =
    let i = execution_identity h in
    let t = deliver json ms s in
    let start : HasEnded k i h.state s = record {
      bound = w.identity_kept k h live;
      ended = inl (h, live, refl);
    } in
    let done = deliver-HasEnded json k i h.state ms s terminal w start in
    elim done.ended [
      | inl there ↦ inr there
      | inr (p, active, older) ↦ inl (
          deliver-stale_handle_gone json [] t k i p (deliver_from-IsWellFormed json ms s w)
            done.bound active older)
    ]

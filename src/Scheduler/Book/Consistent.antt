-- ===== src/Scheduler/Book/Consistent.antt =====
-- What holds of a `ReservationBook` between two calls (src/local_agent_dispatch/scheduler/core.py).
use local_agent_dispatch.Prelude.Dict
use local_agent_dispatch.Prelude.Keys.{◌=?◌, string_eq}
use local_agent_dispatch.Prelude.{
  ℕ, ◌+◌, ◌≤◌, String, ◌≡◌, refl, sym, subst, ap, ◌∙◌, inl, inr, false, none, some, arith,
  Bool-cases, Option-cases,
}
use local_agent_dispatch.Scheduler.Book.State.{Reservation, Book, empty_book, Outside}
use local_agent_dispatch.Scheduler.Model.{PlacementPlan}
use local_agent_dispatch.Topology.Paths.{Pathlib}
use local_agent_dispatch.World.Floats.{Floats}
use local_agent_dispatch.World.Observation.{Calendar}

module _ (floats : Floats) (calendar : Calendar) (paths : Pathlib)
    (outside : Outside floats.Float) where
  open floats use {Float}
  open outside use {reservation_name}

  -- Each reservation stands under the name of its fence, which is at most the revision; its key names
  -- it; and each key names a reservation made under it, with the plan that selected its target.
  pub record IsConsistent (b : Book Float) : Type 0 where
    pub named :
        (id : String) (row : Reservation)
        → Dict.get id b.reservations ≡ some row
        → (row.reservation_id ≡ id)
          × (id ≡ reservation_name row.fence_token)
          × (row.fence_token ≤ b.revision)
    pub keyed :
        (id : String) (row : Reservation)
        → Dict.get id b.reservations ≡ some row
        → Dict.get row.idempotency_key b.by_idempotency ≡ some id
    pub held :
        (key id : String)
        → Dict.get key b.by_idempotency ≡ some id
        → (row : Reservation) × (Dict.get id b.reservations ≡ some row)
          × (row.idempotency_key ≡ key)
          × (p : PlacementPlan Float) × (Dict.get id b.plans_by_reservation ≡ some p)
          × (p.selected_target_id ≡ some row.target_id)

  pub empty-IsConsistent : IsConsistent empty_book
  unfolding Dict.get
  empty-IsConsistent = record {
    named = λ id row e. cc;
    keyed = λ id row e. cc;
    held = λ key id e. cc;
  }

  -- The next name is free.
  pub next_free :
      (b : Book Float)
      → ((m n : ℕ) → reservation_name m ≡ reservation_name n → m ≡ n)
      → IsConsistent b
      → Dict.get (reservation_name (b.revision + 1)) b.reservations ≡ none
  next_free b injective c =
      elim (Option-cases (Dict.get (reservation_name (b.revision + 1)) b.reservations)) [
        | inl free ↦ free
        | inr (row, taken) ↦
            let (_, name, low) = c.named (reservation_name (b.revision + 1)) row taken in
            let same : b.revision + 1 ≡ row.fence_token =
              injective (b.revision + 1) row.fence_token name in
            absurd (omega (arith, same, low))
      ]

  -- A name that is taken is not the free one.
  pub not_free :
      (id name : String) {row : Reservation} (b : Book Float)
      → Dict.get name b.reservations ≡ none
      → Dict.get id b.reservations ≡ some row
      → (name =? id) ≡ false
  not_free id name b free taken = elim (Bool-cases (name =? id)) [
    | inl same ↦ let e : name ≡ id = (string_eq.beq_iff name id).0 same in cc
    | inr other ↦ other
  ]

  module _ (injective : (m n : ℕ) → reservation_name m ≡ reservation_name n → m ≡ n)
      (b : Book Float) (c : IsConsistent b) where
    recorded_held :
        (row : Reservation) (p : PlacementPlan Float)
        → row.reservation_id ≡ reservation_name (b.revision + 1)
        → Dict.get (reservation_name (b.revision + 1)) b.reservations ≡ none
        → p.selected_target_id ≡ some row.target_id
        → (key id : String)
        → Dict.get key (Dict.put row.idempotency_key row.reservation_id b.by_idempotency) ≡ some id
        → (x : Reservation) × (Dict.get id (Dict.put row.reservation_id row b.reservations)
            ≡ some x)
          × (x.idempotency_key ≡ key)
          × (q : PlacementPlan Float) × (Dict.get id
                (Dict.put row.reservation_id p b.plans_by_reservation)
              ≡ some q)
          × (q.selected_target_id ≡ some x.target_id)
    recorded_held row p name free selects key id e =
        elim (Bool-cases (row.idempotency_key =? key)) [
          | inl same ↦
              let named : row.reservation_id ≡ id =
                ground (
                  arith,
                  Dict.get-put row.idempotency_key key row.reservation_id b.by_idempotency,
                ) in
              (
                row,
                subst (λ i. Dict.get i (Dict.put row.reservation_id row b.reservations) ≡ some row)
                    named (Dict.get-put_self row.reservation_id row b.reservations),
                (string_eq.beq_iff row.idempotency_key key).0 same,
                p,
                subst
                    (λ i.
                      Dict.get i (Dict.put row.reservation_id p b.plans_by_reservation) ≡ some p)
                    named (Dict.get-put_self row.reservation_id p b.plans_by_reservation),
                selects,
              )
          | inr other ↦
              let (x, kept, k, q, has_plan, sel) = c.held key id (
                ground (
                  arith,
                  Dict.get-put row.idempotency_key key row.reservation_id b.by_idempotency,
                )) in
              let apart : (row.reservation_id =? id) ≡ false =
                not_free id row.reservation_id b (rw name free) kept in
              (
                x,
                Dict.get-put row.reservation_id id row b.reservations ∙ rw apart kept,
                k,
                q,
                Dict.get-put row.reservation_id id p b.plans_by_reservation ∙ rw apart has_plan,
                sel,
              )
        ]

    pub recorded-IsConsistent :
        (row : Reservation) (p : PlacementPlan Float)
        → row.reservation_id ≡ reservation_name (b.revision + 1)
        → row.fence_token ≡ b.revision + 1
        → Dict.get row.idempotency_key b.by_idempotency ≡ none
        → p.selected_target_id ≡ some row.target_id
        → IsConsistent (record {
          revision = row.fence_token;
          reservations = Dict.put row.reservation_id row b.reservations;
          by_idempotency = Dict.put row.idempotency_key row.reservation_id b.by_idempotency;
          plans_by_reservation = Dict.put row.reservation_id p b.plans_by_reservation;
        })
    recorded-IsConsistent row p name fence fresh_key selects =
        let free = next_free b injective c in
        record {
          named = λ id x e. ground (
            arith,
            c.named id x,
            Dict.get-put row.reservation_id id row b.reservations,
            string_eq.beq_iff row.reservation_id id,
          );
          keyed = λ id x e. ground (
            arith,
            c.keyed id x,
            Dict.get-put row.reservation_id id row b.reservations,
            string_eq.beq_iff row.reservation_id id,
            Dict.get-put row.idempotency_key x.idempotency_key row.reservation_id b.by_idempotency,
            string_eq.beq_iff row.idempotency_key x.idempotency_key,
          );
          held = λ key id e. recorded_held row p name free selects key id e;
        }

    updated_held :
        (id : String) (row updated : Reservation)
        → Dict.get id b.reservations ≡ some row
        → updated.idempotency_key ≡ row.idempotency_key
        → updated.target_id ≡ row.target_id
        → (key j : String) → Dict.get key b.by_idempotency ≡ some j
        → (x : Reservation) × (Dict.get j (Dict.put id updated b.reservations) ≡ some x)
          × (x.idempotency_key ≡ key)
          × (q : PlacementPlan Float) × (Dict.get j b.plans_by_reservation ≡ some q)
          × (q.selected_target_id ≡ some x.target_id)
    updated_held id row updated kept same_key same_target key j e =
        let (x, there, k, q, has_plan, sel) = c.held key j e in
        elim (Bool-cases (id =? j)) [
          | inl same ↦
              let here : id ≡ j = (string_eq.beq_iff id j).0 same in
              let one : row ≡ x = cc in
              (
                updated,
                Dict.get-put id j updated b.reservations ∙ rw same refl,
                same_key ∙ ap (λ (r : Reservation). r.idempotency_key) one ∙ k,
                q,
                has_plan,
                sel ∙ ap some (sym (same_target ∙ ap (λ (r : Reservation). r.target_id) one)),
              )
          | inr other ↦
              (x, Dict.get-put id j updated b.reservations ∙ rw other there, k, q, has_plan, sel)
        ]

    -- An update that keeps the name, the key, the target and the fence.
    pub updated-IsConsistent :
        (id : String) (row updated : Reservation) (n : ℕ)
        → Dict.get id b.reservations ≡ some row
        → b.revision ≤ n
        → updated.reservation_id ≡ row.reservation_id
        → updated.idempotency_key ≡ row.idempotency_key
        → updated.target_id ≡ row.target_id
        → updated.fence_token ≡ row.fence_token
        → IsConsistent
            (record b { revision = n; reservations = Dict.put id updated b.reservations })
    updated-IsConsistent id row updated n kept low same_id same_key same_target same_fence =
        record {
          named = λ j x e. ground (
            arith,
            c.named j x,
            c.named id row kept,
            Dict.get-put id j updated b.reservations,
            string_eq.beq_iff id j,
          );
          keyed = λ j x e. ground (
            arith,
            c.keyed j x,
            c.keyed id row kept,
            Dict.get-put id j updated b.reservations,
            string_eq.beq_iff id j,
          );
          held = λ key j e. updated_held id row updated kept same_key same_target key j e;
        }

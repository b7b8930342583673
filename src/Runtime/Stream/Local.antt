-- ===== src/Runtime/Stream/Local.antt =====
-- A stream with both ends in one component.
use wai_bindgen.Prelude.{
  ℕ, ◌≡◌, ◌≤◌, ◌↔◌, sym, ◌∙◌, subst, true, Bool-cases, inl, inr, Option, List, [], ◌++◌, length,
  arith,
}
use wai_bindgen.Runtime.Store.{panic, Store}
use wai_bindgen.Runtime.Stream.{WriteFuture, ReadFuture}
use wai_bindgen.Runtime.Stream.Session.{
  Session, Move, step, IsAllowed, Reaches, delivers, on_channel, on_offer, in_write, under_way,
}
use wai_bindgen.Runtime.Stream.Phases.{
  Phase, idle, queued, offered, awaiting, arrived, arrived_queued, arrived_offered,
}
use wai_bindgen.Runtime.Stream.Steps.{step_move, delivers-panics, reached-IsOrdered, panic≢ok}

module _ {V : Type 0} (h : ℕ) where
  -- From what the protocol reaches, an operation that it allows panics exactly where it is a poll of
  -- the reader that comes to a value.
  pub step-panics :
      (c : Session V) (m : Move V)
      → Reaches h c
      → IsAllowed c m
      → (step c m ≡ panic) ↔ (delivers c m ≡ true)
  step-panics c m r allowed = elim (Bool-cases (delivers c m)) [
    | inl yes_ ↦ ((λ _. yes_), λ _. delivers-panics h c m yes_)
    | inr no_ ↦
        let s = step_move h c m (reached-IsOrdered h c r) allowed no_ in
        ((λ p. absurd (panic≢ok (sym p ∙ s.runs))), delivers-panics h c m)
  ]

  flight_bound :
      {s : Store V} {wf : Option (WriteFuture V)} {rf : Option (ReadFuture V)} {flight : List V}
      → Phase h s wf rf flight
      → length flight ≤ 2
  flight_bound (idle e) = omega arith
  flight_bound (queued v e) = omega arith
  flight_bound (offered v w e) = omega arith
  flight_bound (awaiting tx e m lt) = omega arith
  flight_bound (arrived tx v e m) = omega arith
  flight_bound (arrived_queued tx v u e m) = omega arith
  flight_bound (arrived_offered tx v u w e m) = omega arith

  Phase-flight :
      (s : Store V) {wf : Option (WriteFuture V)} {rf : Option (ReadFuture V)} {flight : List V}
      → Phase h s wf rf flight
      → on_channel s rf ++ on_offer (s.entries h) ++ in_write wf ≡ flight
  unfolding on_channel on_offer in_write
  Phase-flight s (idle e) = ground arith
  Phase-flight s (queued v e) = ground arith
  Phase-flight s (offered v w e) = ground arith
  Phase-flight s (awaiting tx e m lt) = ground arith
  Phase-flight s (arrived tx v e m) = ground arith
  Phase-flight s (arrived_queued tx v u e m) = ground arith
  Phase-flight s (arrived_offered tx v u w e m) = ground arith

  -- In what the protocol reaches, the values sent are, in order, those under way: on the channel of
  -- the read, on offer, and in the pending write. They are at most two, and none has been read.
  pub reached-under_way :
      (c : Session V)
      → Reaches h c
      → (under_way c ≡ c.written) × ((length c.written ≤ 2) × (c.delivered ≡ []))
  unfolding under_way
  reached-under_way c r =
      let o = reached-IsOrdered h c r in
      (
        subst
            (λ w.
              on_channel c.store c.reader.future
                ++ on_offer (c.store.entries w.handle)
                ++ in_write w.future
              ≡ c.written)
            (sym o.writer_eq)
            (subst
              (λ e.
                on_channel c.store e.future
                  ++ on_offer (c.store.entries h)
                  ++ in_write o.write_future
                ≡ c.written)
              (sym o.reader_eq) (Phase-flight c.store o.phase ∙ o.all_held)),
        (subst (λ l. length l ≤ 2) o.all_held (flight_bound o.phase), o.none_read),
      )

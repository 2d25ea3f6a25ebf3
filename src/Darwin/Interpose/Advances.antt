-- ===== src/Darwin/Interpose/Advances.antt =====
-- Where a bind leaves the offset, and that the section is read to its end.
use substitute.Common.{
  ℕ, zero, suc, ◌+◌, ◌*◌, ◌^◌, ◌<◌, ◌≡◌, inl, inr, ◌∙◌, refl, ap, arith, List, some, u64,
  Option-cases,
}
use substitute.Darwin.Interpose.{
  BindOpcode, BindType, ImportHook, Bind, exchange, exchange_all, hook_of, bind,
}
use substitute.Darwin.Interpose.BindType.{pointer}

exchange_all-pointer :
    (h : ImportHook) (addend segment stride count offset : ℕ) (memory : ℕ → ℕ)
    → offset < 2 ^ 64
    → (changed : ℕ → ℕ) × (exchange_all h pointer addend segment stride count offset memory
        ≡ some (u64 (offset + count * stride), changed))
unfolding exchange_all exchange
exchange_all-pointer h addend segment stride zero offset memory small =
    let none_added : u64 (offset + 0 * stride) ≡ offset = omega (arith, small) in
    (memory, rw none_added refl)
exchange_all-pointer h addend segment stride (suc count) offset memory small =
    let (changed, e) =
      exchange_all-pointer h addend segment stride count (u64 (offset + stride)) _ (omega arith) in
    let sum : u64 (u64 (offset + stride) + count * stride) ≡ u64 (offset + suc count * stride) =
      omega arith in
    (changed, e ∙ ap (λ o. some (o, changed)) sum)

module _ (opcode_of : ℕ → BindOpcode) (immediate_of : ℕ → ℕ) (type_of : ℕ → BindType)
    (segments : List ℕ) (slide : ℕ) (hooks : List ImportHook) where
  -- A bind of pointers never panics, and it moves the offset by the stride for each of them, whether
  -- a hook has the name of the symbol or none has.
  pub bind-advances :
      (count stride : ℕ) (b : Bind)
      → type_of b.type ≡ pointer
      → b.offset < 2 ^ 64
      → (memory : ℕ → ℕ) × (bind opcode_of immediate_of type_of segments slide hooks count stride b
          ≡ some (record b { offset = u64 (b.offset + count * stride); memory = memory }))
  unfolding bind
  bind-advances count stride b pointers small =
      elim (Option-cases (hook_of opcode_of immediate_of type_of segments slide hooks b)) [
        | inl e ↦
            let sum : u64 (b.offset + u64 (count * stride)) ≡ u64 (b.offset + count * stride) =
              omega arith in
            (b.memory, rw (e, bind, sum) refl)
        | inr ((segment, h), e) ↦
            let (memory, f) =
              exchange_all-pointer h b.addend segment stride count b.offset b.memory small in
            (memory, rw (e, bind, pointers, f) refl)
      ]

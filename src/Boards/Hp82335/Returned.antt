-- ===== src/Boards/Hp82335/Returned.antt =====
-- linux-gpib-kernel/drivers/gpib/hp_82335/hp82335.c: what of all that `attach` takes from the kernel
-- `detach` gives back.
use linux_gpib.Prelude.{
  ℕ, ◌+◌, ◌<◌, Bool, true, false, not, ◌&&◌, ◌≡◌, refl, ap, ◌∙◌, ℤ, pos, ◌==ℤ◌, Option, none, some,
  List, [], ◌∷◌, ◌++◌, ◌==◌, if◌then◌else◌, Bool-cases, inl, inr, arith,
}
use linux_gpib.Uapi.Errno.{enomem, einval, ebusy}
use linux_gpib.Kernel.Types.{Board}
use linux_gpib.Chips.Tms9914.Settings.{tms9914_board_reset, tms9914_online}
use linux_gpib.Boards.Hp82335.{HpPriv, hpreg_ccr, writeb, hp82335_clear_interrupt, load}
use linux_gpib.Boards.Hp82335.Attach.{
  Machine, Call, kzalloc, kfree, request_mem_region, release_mem_region, ioremap, iounmap,
  request_irq, free_irq, mapping, is_io_base, start, hp82335_rom_size, hp82335_attach,
  hp82335_detach,
}
use linux_gpib.Boards.Hp82335.Contract.{push_all-kept}

-- What is held of the kernel: memory, a region by its base, a mapping, an interrupt by its number.
pub record Held : Type 0 where
  pub memory : Bool
  pub region : Option ℕ
  pub mapped : Bool
  pub irq : Option ℕ

abbrev pub nothing : Held
nothing = record { memory = false; region = none; mapped = false; irq = none }

-- A region or an interrupt is given back by its own number.
abbrev release : ℕ → Option ℕ → Option ℕ
release n none = none
release n (some m) = if m == n then none else some m

abbrev pub call : Call → Held → Held
call kzalloc held = record held { memory = true }
call kfree held = record held { memory = false }
call (request_mem_region base) held = record held { region = some base }
call (release_mem_region base) held = record held { region = release base held.region }
call ioremap held = record held { mapped = true }
call iounmap held = record held { mapped = false }
call (request_irq n) held = record held { irq = some n }
call (free_irq n) held = record held { irq = release n held.irq }

abbrev pub replay : List Call → Held → Held
replay [] held = held
replay (first ∷ rest) held = replay rest (call first held)

-- what `detach` gives back of private data
abbrev gives : HpPriv → List Call
gives hp =
    (if not (hp.irq == 0) then free_irq hp.irq ∷ [] else [])
    ++ (if hp.mapped then iounmap ∷ [] else [])
    ++ (if not (hp.raw_iobase == 0) then release_mem_region hp.raw_iobase ∷ [] else [])
    ++ kfree ∷ []

detach-gives :
    (board : Board HpPriv) (hp : HpPriv)
    → board.private_data ≡ some hp
    → (hp82335_detach board).0 ≡ gives hp
unfolding hp82335_detach
detach-gives board hp e = simp (hp82335_detach, e) refl

detach-nothing :
    (board : Board HpPriv) → (hp82335_detach (record board { private_data = none })).0 ≡ []
unfolding hp82335_detach
detach-nothing board = refl

-- the private data after `start`, but for the chip and the card
start-gives : (hp : HpPriv) (board : Board HpPriv) → (hp82335_detach (start hp board)).0 ≡ gives hp
unfolding start
start-gives hp board =
    let c = tms9914_board_reset (load board hp) in
    let hp' = writeb 4 hpreg_ccr (hp82335_clear_interrupt hp) in
    let c' = tms9914_online c in
    let kept =
      (push_all-kept true c'.pushed (record board {
        private_data = some (record hp' { tms9914_priv = c' });
        status = c'.status;
        timer_pending = c'.timer_pending;
      })).1 in
    detach-gives (start hp board) (record hp' { tms9914_priv = c' }) kept

-- `==` on itself
same_number : (n : ℕ) → (n == n) ≡ true
same_number n = ground arith

-- what `detach` leaves of an interrupt
abbrev rest_of : ℕ → Option ℕ → Option ℕ
rest_of irq taken = if irq == 0 then taken else release irq taken

-- what is held when all went well, or all but the interrupt, and is given back
gives_back :
    (hp : HpPriv) (taken : Option ℕ)
    → 0 < hp.raw_iobase
    → replay
        (gives hp)
        (record { memory = true; region = some hp.raw_iobase; mapped = hp.mapped; irq = taken })
      ≡ record nothing { irq = rest_of hp.irq taken }
gives_back hp taken base =
    let some_base : (hp.raw_iobase == 0) ≡ false = ground arith in
    let same = same_number hp.raw_iobase in
    elim (Bool-cases (hp.irq == 0)) [
      | inl e ↦ elim (Bool-cases hp.mapped) [
        | inl e2 ↦ simp (e, e2, some_base, same) refl
        | inr e2 ↦ simp (e, e2, some_base, same) refl
      ]
      | inr e ↦ elim (Bool-cases hp.mapped) [
        | inl e2 ↦ simp (e, e2, some_base, same) refl
        | inr e2 ↦ simp (e, e2, some_base, same) refl
      ]
    ]

-- Interrupt 0, which `detach` takes for none, when `attach` has it.
abbrev pub left : Machine → ℤ → Held
left m retval = record nothing { irq = if (retval ==ℤ pos 0) && m.ibirq == 0 then some 0 else none }

-- After these calls and this board, what is held once `detach` is done.
abbrev pub IsReturned : Machine → ℤ × List Call × Board HpPriv → Type 0
IsReturned m (retval, taken, board) =
    replay (hp82335_detach board).0 (replay taken nothing) ≡ left m retval

-- with the board's private data
calls-IsReturned :
    (m : Machine) (retval : ℤ) (taken : List Call) (board : Board HpPriv) (calls : List Call)
    → (hp82335_detach board).0 ≡ calls
    → replay calls (replay taken nothing) ≡ left m retval
    → IsReturned m (retval, taken, board)
calls-IsReturned m retval taken board calls e all =
    ap (λ cs. replay cs (replay taken nothing)) e ∙ all

abbrev fresh : Machine → HpPriv
fresh m = record { tms9914_priv = m.chip; irq = 0; raw_iobase = 0; mapped = false; card = [] }

-- what is held once the region is taken, and then the interrupt
mapped_held :
    (base : ℕ) (maps : Bool)
    → replay (kzalloc ∷ request_mem_region base ∷ mapping maps) nothing
      ≡ record { memory = true; region = some base; mapped = maps; irq = none }
mapped_held base true = refl
mapped_held base false = refl

started_held :
    (base irq : ℕ) (maps : Bool)
    → replay (kzalloc ∷ request_mem_region base ∷ mapping maps ++ request_irq irq ∷ []) nothing
      ≡ record { memory = true; region = some base; mapped = maps; irq = some irq }
started_held base irq true = refl
started_held base irq false = refl

-- an interrupt that was taken, once `detach` is done
irq_left : (m : Machine) → record nothing { irq = rest_of m.ibirq (some m.ibirq) } ≡ left m (pos 0)
irq_left m = elim (Bool-cases (m.ibirq == 0)) [
  | inl e ↦ let zero_irq : m.ibirq ≡ 0 = ground (arith, e) in simp zero_irq refl
  | inr e ↦ simp (e, same_number m.ibirq) refl
]

-- However `attach` ends, with whatever answers of the kernel, what it took is given back by the
-- `detach` that follows, each region and interrupt by its own number, and nothing is left but
-- interrupt 0: an `attach` that succeeds with `ibirq` 0 has it, and `detach` does not free it.
pub hp82335_attach-detach :
    (m : Machine) (board : Board HpPriv) → IsReturned m (hp82335_attach m board)
unfolding hp82335_attach
hp82335_attach-detach m board =
    let board0 = record board { status = 0 } in
    let base = m.ibbase + hp82335_rom_size in
    let hp : HpPriv = record (fresh m) { raw_iobase = base; mapped = m.maps } in
    let done : HpPriv = record hp { irq = m.ibirq } in
    let failed = record board0 { private_data = some (fresh m) } in
    let refused = record board0 { private_data = some hp } in
    let taken = kzalloc ∷ request_mem_region base ∷ mapping m.maps in
    let some_base : 0 < base = omega arith in
    let unused = λ (retval : ℤ).
      calls-IsReturned m retval (kzalloc ∷ []) failed (gives (fresh m))
        (detach-gives failed (fresh m) refl) in
    elim (Bool-cases m.allocates) [
      | inr e ↦
          simp (hp82335_attach, e)
            (calls-IsReturned m enomem [] (record board0 { private_data = none }) []
              (detach-nothing board0) refl)
      | inl e ↦ elim (Bool-cases (is_io_base m.ibbase)) [
        | inr e2 ↦ simp (hp82335_attach, e, e2) (unused einval refl)
        | inl e2 ↦ elim (Bool-cases m.region_is_free) [
          | inr e3 ↦ simp (hp82335_attach, e, e2, e3) (unused ebusy refl)
          | inl e3 ↦ elim (Bool-cases (m.irq_answer ==ℤ pos 0)) [
            | inr e4 ↦
                simp (hp82335_attach, e, e2, e3, e4)
                  (ap (λ calls. replay calls (replay taken nothing)) (detach-gives refused hp refl)
                    ∙ (ap (replay (gives hp)) (mapped_held base m.maps)
                        ∙ gives_back hp none some_base))
            | inl e4 ↦
                simp (hp82335_attach, e, e2, e3, e4)
                  (calls-IsReturned m (pos 0) (taken ++ request_irq m.ibirq ∷ [])
                    (start done board0) (gives done) (start-gives done board0)
                    (ap (replay (gives done)) (started_held base m.ibirq m.maps)
                      ∙ (gives_back done (some m.ibirq) some_base ∙ irq_left m)))
          ]
        ]
      ]
    ]

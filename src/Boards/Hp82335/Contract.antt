-- ===== src/Boards/Hp82335/Contract.antt =====
-- The driver of linux-gpib-kernel/drivers/gpib/hp_82335/hp82335.c keeps to what the core relies on
-- when it reads.
use linux_gpib.Prelude.{
  ℕ, zero, suc, ◌≤◌, ◌<◌, Bool, true, false, ◌≡◌, refl, pos, Option, none, some, List, [], ◌∷◌,
  length, Option-cases, inl, inr, arith,
}
use linux_gpib.Uapi.Errno.{enodev}
use linux_gpib.Kernel.Types.{Board}
use linux_gpib.Kernel.EventQueue.{push_gpib_event}
use linux_gpib.Kernel.Read.Laws.{ReadContract}
use linux_gpib.Chips.Tms9914.{Tms}
use linux_gpib.Chips.Tms9914.Transfer.{tms9914_read}
use linux_gpib.Chips.Tms9914.Settings.{tms9914_go_to_standby, tms9914_update_status}
use linux_gpib.Chips.Tms9914.Reads.{IsComplete, tms9914_read-IsComplete}
use linux_gpib.Boards.Hp82335.{
  HpPriv, load, store, on_private, push_all, hp82335_read, hp82335_go_to_standby,
  hp82335_update_status,
}
use linux_gpib.Boards.Hp82335.Attach.{Machine, hp82335_interface}

-- an event leaves the buffer and the private data alone
pub push_all-kept :
    (alloc : Bool) (events : List ℕ) (board : Board HpPriv)
    → ((push_all alloc events board).buffer_length ≡ board.buffer_length)
      × ((push_all alloc events board).private_data ≡ board.private_data)
unfolding push_all push_gpib_event
push_all-kept alloc [] board = (refl, refl)
push_all-kept alloc (event ∷ earlier) board = push_all-kept alloc earlier board

module _ (alloc : Bool) where
  store-buffer :
      (hp : HpPriv) (c : Tms) (board : Board HpPriv)
      → (store alloc hp c board).buffer_length ≡ board.buffer_length
  store-buffer hp c board =
      (push_all-kept alloc c.pushed (record board {
        private_data = some (record hp { tms9914_priv = c });
        status = c.status;
        timer_pending = c.timer_pending;
      })).0

  -- a read of the chip as the contract asks for it
  read_fits : (size : ℕ) (c : Tms) → length (tms9914_read size c).2 ≤ size
  unfolding tms9914_read IsComplete
  read_fits zero c = omega arith
  read_fits (suc n) c = (tms9914_read-IsComplete (suc n) c (omega arith)).0

  read_progress :
      (size : ℕ) (c : Tms)
      → 0 < size
      → (tms9914_read size c).0 ≡ pos 0
      → (tms9914_read size c).1 ≡ false
      → 0 < length (tms9914_read size c).2
  unfolding IsComplete
  read_progress size c some_bytes z e = elim (tms9914_read-IsComplete size c some_bytes).1 [
    | inl neg ↦ let none : false ≡ true = simp z at neg in absurd cc
    | inr (_, _, inl (ended, _)) ↦ absurd cc
    | inr (_, _, inr (_, whole)) ↦ omega (arith, whole, some_bytes)
  ]

  read_kept :
      (board : Board HpPriv) (n : ℕ)
      → (length (hp82335_read alloc board n).2 ≤ n)
        × (0 < n
            → (hp82335_read alloc board n).0 ≡ pos 0
            → (hp82335_read alloc board n).1 ≡ false
            → 0 < length (hp82335_read alloc board n).2)
        × ((hp82335_read alloc board n).3.buffer_length ≡ board.buffer_length)
  unfolding hp82335_read
  read_kept board n = elim (Option-cases board.private_data) [
    | inl e ↦ simp (hp82335_read, e) (omega arith, λ some_bytes z end. absurd cc, refl)
    | inr (hp, e) ↦
        let c = load board hp in
        simp (hp82335_read, e)
          (read_fits n c, read_progress n c, store-buffer hp (tms9914_read n c).3 board)
  ]

  on_private-buffer :
      {A : Type 0} (operation : Tms → A × Tms) (missing : A) (board : Board HpPriv)
      (private : Option HpPriv)
      → (on_private alloc operation missing board private).1.buffer_length ≡ board.buffer_length
  on_private-buffer operation missing board none = refl
  on_private-buffer operation missing board (some hp) =
      store-buffer hp (operation (load board hp)).1 board

  standby_kept :
      (board : Board HpPriv)
      → (hp82335_go_to_standby alloc board).1.buffer_length ≡ board.buffer_length
  unfolding hp82335_go_to_standby
  standby_kept board = on_private-buffer tms9914_go_to_standby enodev board board.private_data

  status_kept :
      (board : Board HpPriv) (m : ℕ)
      → (hp82335_update_status alloc board m).1.buffer_length ≡ board.buffer_length
  unfolding hp82335_update_status
  status_kept board m = on_private-buffer (tms9914_update_status m) 0 board board.private_data

  -- What the core relies on when it reads holds of this driver.
  pub hp82335_interface-ReadContract : (m : Machine) → ReadContract (hp82335_interface alloc m)
  unfolding hp82335_interface
  hp82335_interface-ReadContract m = record {
    fits = λ board n. (read_kept board n).0;
    progress = λ board n. (read_kept board n).1;
    read_buffer = λ board n. (read_kept board n).2;
    keeps = record { standby_buffer = standby_kept; status_buffer = status_kept };
  }

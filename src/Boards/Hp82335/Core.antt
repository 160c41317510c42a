-- ===== src/Boards/Hp82335/Core.antt =====
-- The core's reading, linux-gpib-kernel/drivers/gpib/common, on the driver of
-- linux-gpib-kernel/drivers/gpib/hp_82335/hp82335.c and its TMS 9914.
use linux_gpib.Prelude.{ℕ, ◌<◌, Bool, ◌≡◌, sym, Option, none, some, Option-cases, inl, inr}
use mathlib.Core.Path.{subst}
use linux_gpib.Uapi.Errno.{enodev}
use linux_gpib.Kernel.Types.{Board, FilePrivate}
use linux_gpib.Kernel.Read.{read_ioctl, ReadWriteCmd, UserMemory, IoResult}
use linux_gpib.Kernel.Read.Ioctl.{IsReported, read_ioctl_total}
use linux_gpib.Kernel.Read.Private.{KeepsPrivate, read_ioctl-Kept}
use linux_gpib.Chips.Tms9914.{Tms}
use linux_gpib.Chips.Tms9914.Settings.{tms9914_go_to_standby, tms9914_update_status}
use linux_gpib.Chips.Tms9914.Transfer.{tms9914_read}
use linux_gpib.Chips.Tms9914.Awake.{
  IsAwake, tms9914_read-IsAwake, go_to_standby-IsAwake, update_status-IsAwake,
}
use linux_gpib.Boards.Hp82335.{
  HpPriv, load, store, on_private, hp82335_read, hp82335_go_to_standby, hp82335_update_status,
}
use linux_gpib.Boards.Hp82335.Attach.{Machine, hp82335_interface}
use linux_gpib.Boards.Hp82335.Contract.{push_all-kept, hp82335_interface-ReadContract}

-- The chip of the private data, if there is one: no sleep has lasted for ever, and a signal is to
-- come.
abbrev pub HasSignal : Option HpPriv → Type 0
HasSignal none = Unit {0}
HasSignal (some hp) = IsAwake hp.tms9914_priv

module _ (alloc : Bool) where
  store-HasSignal :
      (hp : HpPriv) (c : Tms) (board : Board HpPriv)
      → IsAwake c
      → HasSignal (store alloc hp c board).private_data
  store-HasSignal hp c board h =
      subst HasSignal
        (sym
          (push_all-kept alloc c.pushed (record board {
            private_data = some (record hp { tms9914_priv = c });
            status = c.status;
            timer_pending = c.timer_pending;
          })).1)
        h

  read-HasSignal :
      (board : Board HpPriv) (n : ℕ)
      → HasSignal board.private_data
      → HasSignal (hp82335_read alloc board n).3.private_data
  unfolding hp82335_read
  read-HasSignal board n h = elim (Option-cases board.private_data) [
    | inl e ↦ simp (hp82335_read, e) tt
    | inr (hp, e) ↦
        let awake : IsAwake hp.tms9914_priv = simp e at h in
        let c = load board hp in
        simp (hp82335_read, e)
          (store-HasSignal hp (tms9914_read n c).3 board (tms9914_read-IsAwake n c awake))
  ]

  on_private-HasSignal :
      {A : Type 0} (operation : Tms → A × Tms) (missing : A) (board : Board HpPriv)
      → ((c : Tms) → IsAwake c → IsAwake (operation c).1)
      → HasSignal board.private_data
      → HasSignal (on_private alloc operation missing board board.private_data).1.private_data
  on_private-HasSignal operation missing board kept h = elim (Option-cases board.private_data) [
    | inl e ↦ simp e tt
    | inr (hp, e) ↦
        let awake : IsAwake hp.tms9914_priv = simp e at h in
        let c = load board hp in simp e (store-HasSignal hp (operation c).1 board (kept c awake))
  ]

  hp82335_interface-KeepsPrivate :
      (m : Machine) → KeepsPrivate HasSignal (hp82335_interface alloc m)
  unfolding hp82335_interface hp82335_go_to_standby hp82335_update_status
  hp82335_interface-KeepsPrivate m = record {
    by_read = read-HasSignal;
    by_standby =
        λ board h. on_private-HasSignal tms9914_go_to_standby enodev board go_to_standby-IsAwake h;
    by_status = λ board clear_mask h.
        on_private-HasSignal (tms9914_update_status clear_mask) 0 board
          (update_status-IsAwake clear_mask) h;
  }

-- On a board with a buffer and this driver, and with a signal among what is still to happen while
-- the process sleeps, `read_ioctl` returns, and no wait of the driver sleeps for ever; a count that
-- is copied back is that of the bytes stored in the user's buffer and at most the size asked for,
-- and after a success without END it is that size.
pub read_ioctl-hp82335_interface :
    (alloc : Bool) (m : Machine) (os : UserMemory) (cmd : ReadWriteCmd) (file : FilePrivate)
    (board : Board HpPriv)
    → 0 < board.buffer_length
    → HasSignal board.private_data
    → (r : IoResult HpPriv) × (read_ioctl (hp82335_interface alloc m) os cmd file board ≡ some r)
      × HasSignal r.board.private_data
      × IsReported cmd r
read_ioctl-hp82335_interface alloc m os cmd file board room comes =
    let interface = hp82335_interface alloc m in
    let (r, same, reported) =
      read_ioctl_total interface (hp82335_interface-ReadContract alloc m) os cmd file board room in
    let awake =
      read_ioctl-Kept interface HasSignal (hp82335_interface-KeepsPrivate alloc m) os cmd file board
        r comes same in
    (r, same, awake, reported)

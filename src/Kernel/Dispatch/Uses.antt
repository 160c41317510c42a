-- ===== src/Kernel/Dispatch/Uses.antt =====
-- What `ibioctl` refuses.
use linux_gpib.Prelude.{
  ℕ, ◌+◌, ◌≡◌, refl, ap, ◌∙◌, Bool, true, false, arith, ℤ, is_neg, leb, ◌==◌, if◌then◌else◌,
  Bool-cases, inl, inr,
}
use linux_gpib.Uapi.Errno.{eperm, eio, enodev, einval, erestartsys}
use linux_gpib.Uapi.Status.{gpib_max_num_boards}
use linux_gpib.Kernel.Types.{Board, FilePrivate}
use linux_gpib.Kernel.Dispatch.{
  Command, stage_of, owner, Dispatched, refused, Caller, owned, served, with_module, ibioctl,
}

-- Refused, with nothing changed but the use of the module.
pub record IsRefused {D : Type 0} (file : FilePrivate) (board : Board D) (r : Dispatched D)
    : Type 0 where
  pub error : ℤ
  pub got_module : Bool
  pub use_count : ℕ
  pub same :
      r
      ≡ refused error
          (record file { got_module = got_module })
          (record board { use_count = use_count })
  pub is_error : is_neg error ≡ true

IsRefused-with :
    {D : Type 0} {file : FilePrivate} {board : Board D} {r : Dispatched D} (error : ℤ)
    (got_module : Bool) (use_count : ℕ)
    → is_neg error ≡ true
    → r
      ≡ refused error
          (record file { got_module = got_module })
          (record board { use_count = use_count })
    → IsRefused file board r
IsRefused-with error got_module use_count neg same = record {
  error = error;
  got_module = got_module;
  use_count = use_count;
  same = same;
  is_error = neg;
}

module _ {D : Type 0} where
  -- the answer to a process other than the one in `locking_pid`
  abbrev not_yours : Board D → ℤ
  not_yours board = if board.online then eperm else einval

  served_not_owner :
      (caller : Caller) (cmd : Command) (file : FilePrivate) (board : Board D)
      → stage_of cmd ≡ owner
      → (caller.pid == board.locking_pid) ≡ false
      → served caller cmd file board ≡ refused (not_yours board) file board
  unfolding served owned
  served_not_owner caller cmd file board stage other = elim (Bool-cases board.online) [
    | inl e ↦ simp (served, stage, e, other) refl
    | inr e ↦ simp (served, stage, e) refl
  ]

  with_module_not_owner :
      (caller : Caller) (cmd : Command) (file : FilePrivate) (board : Board D)
      → stage_of cmd ≡ owner
      → (caller.pid == board.locking_pid) ≡ false
      → IsRefused file board (with_module caller cmd file board)
  unfolding with_module
  with_module_not_owner caller cmd file board stage other =
      let taken = record board { use_count = board.use_count + 1 } in
      let owned_file = record file { got_module = true } in
      elim (Bool-cases caller.has_interface) [
        | inr e ↦ IsRefused-with enodev file.got_module board.use_count refl (simp e refl)
        | inl e ↦ elim (Bool-cases file.got_module) [
          | inl e2 ↦
              let same =
                ap (λ g. refused (not_yours board) (record file { got_module = g }) board) e2 in
              IsRefused-with (not_yours board) true board.use_count (ground arith)
                (simp (e, e2) (served_not_owner caller cmd file board stage other ∙ same))
          | inr e2 ↦ elim (Bool-cases caller.got) [
            | inl e3 ↦
                IsRefused-with (not_yours board) true (board.use_count + 1) (ground arith)
                  (simp (e, e2, e3) (served_not_owner caller cmd owned_file taken stage other))
            | inr e3 ↦
                let same = ap (λ g. refused eio (record file { got_module = g }) board) e2 in
                IsRefused-with eio false board.use_count refl (simp (e, e2, e3) same)
          ]
        ]
      ]

  -- A process other than the one in `locking_pid` is refused every command behind that test, with a
  -- negative result and nothing changed but the use of the driver's module.
  pub ibioctl_not_owner :
      (caller : Caller) (cmd : Command) (file : FilePrivate) (board : Board D)
      → stage_of cmd ≡ owner
      → (caller.pid == board.locking_pid) ≡ false
      → IsRefused file board (ibioctl caller cmd file board)
  unfolding ibioctl
  ibioctl_not_owner caller cmd file board stage other =
      elim (Bool-cases (leb gpib_max_num_boards caller.minor)) [
        | inl e ↦ IsRefused-with enodev file.got_module board.use_count refl (simp e refl)
        | inr e ↦ elim (Bool-cases caller.interrupted) [
          | inl e2 ↦
              IsRefused-with erestartsys file.got_module board.use_count refl (simp (e, e2) refl)
          | inr e2 ↦ simp (e, e2, stage) (with_module_not_owner caller cmd file board stage other)
        ]
      ]

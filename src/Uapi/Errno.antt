-- ===== src/Uapi/Errno.antt =====
-- The error numbers of the operating system that the code returns, negated.
use linux_gpib.Prelude.{ℤ, negsuc}

abbrev pub eperm : ℤ
eperm = negsuc 0

abbrev pub enoent : ℤ
enoent = negsuc 1

abbrev pub eio : ℤ
eio = negsuc 4

abbrev pub enxio : ℤ
enxio = negsuc 5

abbrev pub enomem : ℤ
enomem = negsuc 11

abbrev pub efault : ℤ
efault = negsuc 13

abbrev pub ebusy : ℤ
ebusy = negsuc 15

abbrev pub enodev : ℤ
enodev = negsuc 18

abbrev pub einval : ℤ
einval = negsuc 21

abbrev pub epipe : ℤ
epipe = negsuc 31

abbrev pub erange : ℤ
erange = negsuc 33

abbrev pub eopnotsupp : ℤ
eopnotsupp = negsuc 94

abbrev pub enotconn : ℤ
enotconn = negsuc 106

abbrev pub etimedout : ℤ
etimedout = negsuc 109

abbrev pub erestartsys : ℤ
erestartsys = negsuc 511

abbrev pub enotty : ℤ
enotty = negsuc 24

abbrev pub eintr : ℤ
eintr = negsuc 3

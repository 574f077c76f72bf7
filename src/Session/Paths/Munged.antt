-- ===== src/Session/Paths/Munged.antt =====
-- A munged path is one component.
use go_claude_teleport.Base.{ℕ, suc, [], ◌∷◌, Bytes, ◌≡◌, ◌≢◌, refl, ap, arith, Lacks, length}
use go_claude_teleport.FilePath.{slash}
use go_claude_teleport.Session.Paths.{munge_byte, munge}

munge_byte-slash : (c : ℕ) → munge_byte c ≢ slash
munge_byte-slash c h = ground arith

munge_byte-dot : (c : ℕ) → munge_byte c ≢ b'.'
munge_byte-dot c h = ground arith

-- Whatever a path holds, `Munge` keeps its length and leaves neither a slash nor a dot in it, so
-- that the munged path is one component of a path, and is neither `.` nor `..`.
pub munge-Lacks :
    (s : Bytes) → Lacks slash (munge s) × (Lacks b'.' (munge s) × (length (munge s) ≡ length s))
unfolding munge
munge-Lacks [] = (tt, (tt, refl))
munge-Lacks (c ∷ s) =
    let (a, (b, l)) = munge-Lacks s in ((munge_byte-slash c, a), ((munge_byte-dot c, b), ap suc l))

-- ===== src/Session/PathMap/Longest.antt =====
-- `ApplyPath` rewrites by the longest `from` that covers the path.
use go_claude_teleport.Base.{
  ℕ, ◌≤◌, true, false, [], ◌∷◌, ◌++◌, append-nil, Bytes, ◌≡◌, refl, sym, ap, arith, All, length,
  drop, if◌then◌else◌, inl, inr, Bool-cases, bytes_eq, bytes_eq_iff,
}
use mathlib.Core.List.{Memᴰ}
use go_claude_teleport.Session.PathMap.{Mapping, PathMap, covers, apply_path}
use go_claude_teleport.Session.PathMap.Sorted.{IsSorted, NotLonger}

-- What became of a path: no mapping covers it and it stays, or the longest of those that cover it
-- rewrote it.
pub data Rewritten (pm : PathMap) (p : Bytes) : Type 0 where
  kept : All (λ m. covers m p ≡ false) pm → apply_path pm p ≡ p → Rewritten pm p
  moved :
      (m : Mapping)
      → Memᴰ m pm
      → covers m p ≡ true
      → ((x : Mapping) → Memᴰ x pm → covers x p ≡ true → length x.from ≤ length m.from)
      → apply_path pm p ≡ m.to ++ drop (length m.from) p
      → Rewritten pm p

drop_self : (s : Bytes) → drop (length s) s ≡ []
drop_self [] = refl
drop_self (c ∷ s) = drop_self s

-- One mapping of `ApplyPath`: both of its branches leave `to` before what stands behind `from`.
pub apply_path-cons :
    (m : Mapping) (ms : PathMap) (p : Bytes)
    → apply_path (m ∷ ms) p
      ≡ (if covers m p then m.to ++ drop (length m.from) p else apply_path ms p)
unfolding apply_path covers
apply_path-cons m ms p = elim (Bool-cases (bytes_eq p m.from)) [
  | inl e ↦ rw e (rw ((bytes_eq_iff p m.from).0 e) (rw (drop_self m.from) (sym (append-nil m.to))))
  | inr e ↦ rw e refl
]

not-longer-mem :
    (n : ℕ) (ms : PathMap) (x : Mapping) → NotLonger n ms → Memᴰ x ms → length x.from ≤ n
not-longer-mem n [] x all mem = elim mem [ ]
not-longer-mem n (m ∷ ms) x (h, all) (Memᴰ.head e) = rw e h
not-longer-mem n (m ∷ ms) x (h, all) (Memᴰ.tail mem) = not-longer-mem n ms x all mem

-- The first mapping of a sorted map is as long as every other.
first-longest :
    (m : Mapping) (ms : PathMap) (x : Mapping)
    → NotLonger (length m.from) ms
    → Memᴰ x (m ∷ ms)
    → length x.from ≤ length m.from
first-longest m ms x all (Memᴰ.head e) = rw e (omega arith)
first-longest m ms x all (Memᴰ.tail mem) = not-longer-mem (length m.from) ms x all mem

not-covered :
    (m : Mapping) (ms : PathMap) (p : Bytes)
    → covers m p ≡ false
    → Rewritten ms p
    → Rewritten (m ∷ ms) p
not-covered m ms p e (kept all same) = kept (e, all) (rw (apply_path-cons m ms p) (rw e same))
not-covered m ms p e (moved x mem covered longest same) =
    moved x (Memᴰ.tail mem) covered (λ y mem' covered'. later y mem' covered')
      (rw (apply_path-cons m ms p) (rw e same))
  where
    later : (y : Mapping) → Memᴰ y (m ∷ ms) → covers y p ≡ true → length y.from ≤ length x.from
    later y (Memᴰ.head e') covered' = cc (ap (λ (z : Mapping). covers z p) e')
    later y (Memᴰ.tail mem') covered' = longest y mem' covered'

-- Under a sorted map `ApplyPath` rewrites a path by a mapping whose `from` is the longest of those
-- that are the path or lie above it, putting `to` in the place of `from`; it keeps a path that no
-- mapping covers.
pub apply_path-Rewritten : (pm : PathMap) (p : Bytes) → IsSorted pm → Rewritten pm p
apply_path-Rewritten [] p sorted = kept tt (unfold apply_path in refl)
apply_path-Rewritten (m ∷ ms) p (all, sorted) = elim (Bool-cases (covers m p)) [
  | inl e ↦
      moved m (Memᴰ.head refl) e (λ x mem covered. first-longest m ms x all mem)
        (rw (apply_path-cons m ms p) (rw e))
  | inr e ↦ not-covered m ms p e (apply_path-Rewritten ms p sorted)
]

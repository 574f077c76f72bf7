-- ===== src/Transfer/Diff/Own.antt =====
-- A classified manifest gives every entry its own status, when the ids are distinct.
use mathlib.Core.List.{Memᴰ}
use mathlib.Core.List.Memᴰ
use go_claude_teleport.Base.{Bool, some, List, [], ◌∷◌, ◌++◌, ◌≡◌, ◌≢◌, All}
use go_claude_teleport.Transfer.Manifest.{Entry}
use go_claude_teleport.Transfer.Diff.{
  Status, Statuses, put, Staged, Staging, put_staged, staged_state, Refusal, passes, refuses, Dest,
  own, classified, diff_from,
}
use go_claude_teleport.Transfer.Diff.Means.{Means}

-- No two entries have one id.
abbrev pub IsDistinct : List Entry → Type 0
IsDistinct [] = Unit
IsDistinct (e ∷ es) = All (λ x. x.id ≢ e.id) es × IsDistinct es

-- What one round leaves to the rounds after it, when they end in a classification.
data Round (d : Dest) (e : Entry) (es : List Entry) (out : Statuses) (g : Staging)
    (rs : List Refusal) (out' : Statuses) (g' : Staging) : Type 0 where
  passed :
      (s : Status) (left : Staged)
      → own d e (staged_state e (g e.id)) ≡ some (s, left)
      → diff_from d es (put e.id s out) (put_staged e.id left g) rs ≡ classified out' g'
      → d.check e ≡ passes
      → Round d e es out g rs out' g'
  silent :
      (more : List Refusal)
      → d.check e ≡ refuses more
      → diff_from d es out g (rs ++ more) ≡ classified out' g'
      → Round d e es out g rs out' g'

-- The entry's own status is the one in the map, and what is left of its staged copy is in the
-- staging directory.
abbrev pub HasOwn : Dest → Staging → Statuses → Staging → Entry → Type 0
HasOwn d g out' g' e = own d e (staged_state e (g e.id)) ≡ some (out' e.id, g' e.id)

-- The status that the entry has in the map means what it says, for the state of its own staged copy,
-- of which the staging directory holds what is left.
unfoldable pub IsClassified : Dest → Staging → Statuses → Staging → Entry → Type 0
IsClassified d g out' g' e =
    (staged : Bool) × (mismatch : Bool) × (staged_state e (g e.id)
      ≡ some ((staged, mismatch), g' e.id))
    × Means d e staged mismatch (out' e.id)

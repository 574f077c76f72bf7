-- ===== src/Tests/Machine.antt =====
-- A small operating system for the tests: a store of files in which every call works.
use go_claude_teleport.Base.{
  ◌<◌, none, [], ◌++◌, Bytes, codes, bytes_eq, bytes_eq_iff, ◌≡◌, ◌≢◌, refl, sym, ap, ◌∙◌, arith,
  if◌then◌else◌, if-true, length, length-append,
}
use go_claude_teleport.Job.Journal.{new, journal_path}
use go_claude_teleport.Job.Save.{Result, ok, ReadResult, content, missing, Os}
use go_claude_teleport.Job.Save.Atomic.{IsLawful}

abbrev pub Files : Type 0
Files = Bytes → ReadResult

unfoldable pub set : Bytes → ReadResult → Files → Files
unfolding bytes_eq
set p c w q = if bytes_eq p q then c else w q

set_self : (p : Bytes) (c : ReadResult) (w : Files) → set p c w p ≡ c
unfolding set
set_self p c w = if-true (bytes_eq p p) _ _ ((bytes_eq_iff p p).1 refl)

set_other : (p q : Bytes) (c : ReadResult) (w : Files) → p ≢ q → set p c w q ≡ w q
unfolding set
set_other p q c w ne = ground (arith, bytes_eq_iff p q)

-- A file with more text behind it.
unfoldable appended : Bytes → ReadResult → ReadResult
appended raw (content s) = content (s ++ raw)
appended raw c = content raw

-- A journal's text is its id.
unfoldable pub machine : Os
unfolding set appended new journal_path
machine = record {
  World = Files;
  now = λ w. 7;
  read_file = λ w p. w p;
  lock = λ d w. (none, set (d ++ codes "/.journal.lock") (content []) w);
  unlock = λ d w. w;
  create_temp = λ d w.
      (ok (journal_path d ++ codes ".tmp"), set (journal_path d ++ codes ".tmp") (content []) w);
  write = λ tmp raw w. (none, set tmp (appended raw (w tmp)) w);
  sync = λ tmp w. (none, w);
  close = λ tmp w. (none, w);
  chmod = λ tmp w. (none, w);
  rename = λ tmp p w. (none, set p (w tmp) (set tmp missing w));
  remove = λ tmp w. set tmp missing w;
  encode = λ j. ok j.id;
  decode = λ raw. ok (new (codes "/data") raw 0);
}

longer : (p s : Bytes) → 0 < length s → p ++ s ≢ p
longer p s h e = absurd (omega (arith, length-append p s, ap length e))

ok-eq : (a b : Bytes) → ◌≡◌ {A = Result Bytes} (ok a) (ok b) → a ≡ b
ok-eq a b e = cc

fresh_temp :
    (q p tmp : Bytes) (w : Files)
    → q ++ codes ".tmp" ≡ tmp
    → (tmp ≢ q) × (tmp ≢ p → set (q ++ codes ".tmp") (content []) w p ≡ w p)
fresh_temp q p tmp w e = (
  (λ h. longer q (codes ".tmp") (omega arith) (e ∙ h)),
  λ ne. set_other (q ++ codes ".tmp") p (content []) w (λ h. ne (sym e ∙ h)),
)

temp_empty : (q tmp : Bytes) (w : Files) → q ≡ tmp → set q (content []) w tmp ≡ content []
temp_empty q tmp w e = rw (← e) (set_self q (content []) w)

pub machine-IsLawful : IsLawful machine
unfolding machine appended
machine-IsLawful = record {
  temp_other = λ d p tmp w e.
      fresh_temp (journal_path d) p tmp w (ok-eq (journal_path d ++ codes ".tmp") tmp e);
  temp_failed = λ d p e w h. cc;
  temp_empty = λ d tmp w e.
      temp_empty (journal_path d ++ codes ".tmp") tmp w
        (ok-eq (journal_path d ++ codes ".tmp") tmp e);
  write_other = λ tmp raw p w ne. set_other tmp p (appended raw (w tmp)) w ne;
  write_appends =
      λ tmp raw before w e h. set_self tmp (appended raw (w tmp)) w ∙ ap (appended raw) e;
  sync_same = λ tmp p w. refl;
  close_same = λ tmp p w. refl;
  chmod_same = λ tmp p w. refl;
  rename_moves = λ tmp p w h. set_self p (w tmp) (set tmp missing w);
  rename_failed = λ tmp p q t w h. cc;
  remove_other = λ tmp p w ne. set_other tmp p missing w ne;
  unlock_same = λ d p w. refl;
}

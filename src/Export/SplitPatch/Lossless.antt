-- ===== src/Export/SplitPatch/Lossless.antt =====
-- repogauge/export/split_patch.py: the chunks of a diff hold its lines.
use repogauge.Prelude.{
  ◌≡◌, refl, sym, ◌∙◌, true, false, Option, none, some, List, ◌∷◌, ◌++◌, if◌then◌else◌, is_some,
  is_empty, some_of_else,
}
use repogauge.Prelude.Text.{Text}
use mathlib.Core.List.{append_assoc, [], append-nil}
use repogauge.Export.SplitPatch.{
  Role, FilePatchChunk, Splitting, split_start, parse_diff_header, splitlines_keep, add_chunk,
  close_with, restart, on_line, and_then, split_lines, split_diff_files, ap,
}

-- The lines of chunks, one after the other.
abbrev pub lines_of : List FilePatchChunk → List Text
lines_of [] = []
lines_of (c ∷ cs) = c.raw_lines ++ lines_of cs

-- The lines from the first header on.
abbrev pub from_header : List Text → List Text
from_header [] = []
from_header (line ∷ lines) =
    if is_some (parse_diff_header line) then line ∷ lines else from_header lines

lines_of-snoc :
    (cs : List FilePatchChunk) (c : FilePatchChunk)
    → lines_of (cs ++ c ∷ []) ≡ lines_of cs ++ c.raw_lines
lines_of-snoc [] c = append-nil c.raw_lines
lines_of-snoc (d ∷ ds) c =
    ap (λ l. d.raw_lines ++ l) (lines_of-snoc ds c)
    ∙ sym (append_assoc d.raw_lines (lines_of ds) c.raw_lines)

some_inv : (s t : Splitting) → some s ≡ some t → t ≡ s
some_inv s t e = cc e

module _ (role_of : Text → Role) where
  close_with-lines :
      (s : Splitting) (o : Option (Text × Text)) (s' : Splitting)
      → is_some o ≡ true
      → close_with role_of s o ≡ some s'
      → lines_of s'.chunks ≡ lines_of s.chunks ++ s.current_lines
  close_with-lines s none s' h e = cc h
  close_with-lines s (some (a, b)) s' h e =
      let made = some_of_else _ (add_chunk role_of s _) s' e in
      ap (λ (t : Splitting). lines_of t.chunks) made ∙ lines_of-snoc s.chunks _

  -- A file is open: it has a header, and its lines so far.
  IsOpen : Splitting → Type 0
  IsOpen s = (is_some s.current_paths ≡ true) × (is_empty s.current_lines ≡ false)

  -- The chunks of a result hold what the splitting held, and the lines to come.
  abbrev Holds : Splitting → List Text → Splitting → Type 0
  Holds s lines r = lines_of r.chunks ≡ lines_of s.chunks ++ (s.current_lines ++ lines)

  not_empty-snoc : (xs : List Text) (x : Text) → is_empty (xs ++ x ∷ []) ≡ false
  not_empty-snoc [] x = refl
  not_empty-snoc (y ∷ ys) x = refl

  restarted-Holds :
      (s : Splitting) (line : Text) (paths : Text × Text) (lines : List Text) (r : Splitting)
      (o : Option Splitting)
      → is_some s.current_paths ≡ true
      → close_with role_of s s.current_paths ≡ o
      → and_then role_of (restart role_of line paths o) (λ s'. split_lines role_of s' lines)
        ≡ some r
      → ((s' : Splitting) → IsOpen s' → split_lines role_of s' lines ≡ some r → Holds s' lines r)
      → Holds s (line ∷ lines) r
  unfolding IsOpen
  restarted-Holds s line paths lines r none h closed e rest = cc e
  restarted-Holds s line paths lines r (some t) h closed e rest =
      rest _ (refl, refl) e
      ∙ ap (λ l. l ++ line ∷ lines) (close_with-lines s s.current_paths t h closed)
      ∙ append_assoc (lines_of s.chunks) s.current_lines (line ∷ lines)

  line-Holds :
      (s : Splitting) (line : Text) (lines : List Text) (r : Splitting) (o : Option (Text × Text))
      → IsOpen s
      → and_then role_of (on_line role_of s line o) (λ s'. split_lines role_of s' lines) ≡ some r
      → ((s' : Splitting) → IsOpen s' → split_lines role_of s' lines ≡ some r → Holds s' lines r)
      → Holds s (line ∷ lines) r
  unfolding IsOpen
  line-Holds s line lines r (some paths) h e rest =
      restarted-Holds s line paths lines r _ h.0 refl e rest
  line-Holds s line lines r none h e rest =
      rest (record s { current_lines = s.current_lines ++ line ∷ [] })
        (h.0, not_empty-snoc s.current_lines line) (rw h.1 at e)
      ∙ ap (λ l. lines_of s.chunks ++ l) (append_assoc s.current_lines (line ∷ []) lines)

  -- From an open file on, every line goes to a chunk.
  open-Holds :
      (s : Splitting) (lines : List Text) (r : Splitting)
      → IsOpen s
      → split_lines role_of s lines ≡ some r
      → Holds s lines r
  unfolding split_lines IsOpen
  open-Holds s [] r h e =
      close_with-lines s s.current_paths r h.0 e
      ∙ ap (λ l. lines_of s.chunks ++ l) (sym (append-nil s.current_lines))
  open-Holds s (line ∷ lines) r h e =
      line-Holds s line lines r (parse_diff_header line) h e
        (λ s' h' e'. open-Holds s' lines r h' e')

  preamble :
      (line : Text) (lines : List Text) (r : Splitting) (o : Option (Text × Text))
      → and_then role_of (on_line role_of split_start line o) (λ s'. split_lines role_of s' lines)
        ≡ some r
      → (split_lines role_of split_start lines ≡ some r → lines_of r.chunks ≡ from_header lines)
      → lines_of r.chunks ≡ (if is_some o then line ∷ lines else from_header lines)
  unfolding IsOpen
  preamble line lines r none e rest = rest e
  preamble line lines r (some paths) e rest = open-Holds _ lines r (refl, refl) e

  from_header-lines :
      (lines : List Text) (r : Splitting)
      → split_lines role_of split_start lines ≡ some r
      → lines_of r.chunks ≡ from_header lines
  unfolding split_lines
  from_header-lines [] r e = ap (λ (t : Splitting). lines_of t.chunks) (some_inv split_start r e)
  from_header-lines (line ∷ lines) r e =
      preamble line lines r (parse_diff_header line) e (from_header-lines lines r)

  -- Where a diff is split, its chunks hold exactly its lines from the first file header on, each once
  -- and in order.
  pub split_diff_files-lossless :
      (diff : Text) (r : Splitting)
      → split_diff_files role_of diff ≡ some r
      → lines_of r.chunks ≡ from_header (splitlines_keep diff)
  unfolding split_diff_files
  split_diff_files-lossless diff r e = from_header-lines (splitlines_keep diff) r e

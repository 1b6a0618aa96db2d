-- ===== src/Rtsp/Commands/Lines.antt =====
-- The lines that `cmd_announce` of src/rtsp.cpp reads.
use switchdesk_engine.Prelude.{
  ℕ, Bool, true, false, List, [], ◌∷◌, ◌++◌, if◌then◌else◌, Bytes, ◌≡◌, refl, ap, All, append_assoc,
  append-[], if_false, ◌∙◌, sym,
}
use switchdesk_engine.Rtsp.Commands.{is_break, lines_from, announce_lines}

-- A byte that ends no line.
abbrev pub Inner : ℕ → Type 0
Inner c = is_break c ≡ false

-- A line with at least one byte, all of them inner.
abbrev pub IsLine : Bytes → Type 0
IsLine [] = ⊥
IsLine (c ∷ cs) = Inner c × All Inner cs

-- Each line with a carriage return and a line feed behind it.
abbrev pub printed : List Bytes → Bytes
printed [] = []
printed (line ∷ lines) = line ++ 13 ∷ 10 ∷ printed lines

lines_from-more :
    (current : Bytes) (skips : Bool) (c : ℕ) (cs : Bytes)
    → Inner c
    → lines_from current skips (c ∷ cs) ≡ lines_from (current ++ c ∷ []) false cs
unfolding lines_from
lines_from-more current skips c cs h =
    if_false (is_break c) (if skips then lines_from [] true cs else current ∷ lines_from [] true cs)
      (lines_from (current ++ c ∷ []) false cs) h

lines_from-line :
    (current line rest : Bytes)
    → All Inner line
    → lines_from current false (line ++ 13 ∷ 10 ∷ rest)
      ≡ (current ++ line) ∷ lines_from [] true rest
unfolding lines_from is_break
lines_from-line current [] rest a = ap (λ l. l ∷ lines_from [] true rest) (sym (append-[] current))
lines_from-line current (c ∷ cs) rest a =
    lines_from-more current false c (cs ++ 13 ∷ 10 ∷ rest) a.0
    ∙ lines_from-line (current ++ c ∷ []) cs rest a.1
    ∙ ap (λ l. l ∷ lines_from [] true rest) (append_assoc current (c ∷ []) cs)

lines_from-printed :
    (skips : Bool) (lines : List Bytes)
    → All IsLine lines
    → lines_from [] skips (printed lines) ≡ lines
unfolding lines_from
lines_from-printed skips [] a = refl
lines_from-printed skips ([] ∷ lines) a = absurd a.0
lines_from-printed skips ((c ∷ cs) ∷ lines) a =
    lines_from-more [] skips c (cs ++ 13 ∷ 10 ∷ printed lines) a.0.0
    ∙ lines_from-line (c ∷ []) cs (printed lines) a.0.1
    ∙ ap (λ l. (c ∷ cs) ∷ l) (lines_from-printed true lines a.1)

-- Lines of at least one byte, without line feeds and carriage returns in them, are read as they are
-- from the payload in which each of them ends with a carriage return and a line feed.
pub announce_lines-printed :
    (lines : List Bytes) → All IsLine lines → announce_lines (printed lines) ≡ lines
unfolding announce_lines
announce_lines-printed lines a = lines_from-printed false lines a

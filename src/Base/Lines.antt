-- ===== src/Base/Lines.antt =====
-- Texts as lines: `BufRead::lines`, and whether `str::trim` leaves nothing.
use Prim.Native.Nat.{ℕ}
use mathlib.Core.Path.{◌≡◌, refl, ap, sym, ◌∙◌}
use mathlib.Core.Logic.{◌≢◌, inl, inr}
use mathlib.Core.Bool.{Bool, true, false, ◌&&◌, ◌||◌}
use mathlib.Core.List.{List, [], ◌∷◌, ◌++◌, append-nil, append_assoc}
use mathlib.Core.Option.{Option, none, some}
use native.Mathlib.Omega.{arith}
use mutsuki_distributed_host.Base.Tests.{leb, ◌==◌, if◌then◌else◌, Bool-cases, Option-cases}
use mutsuki_distributed_host.Base.Lists.{All, last?, is_empty}
use mutsuki_distributed_host.Base.Texts.{Bytes}

-- A line that a newline ended loses the carriage return before it.
unfoldable pub drop_return : Bytes → Bytes
drop_return [] = []
drop_return (b ∷ []) = if b == 13 then [] else b ∷ []
drop_return (b ∷ c ∷ bs) = b ∷ drop_return (c ∷ bs)

-- The lines of a file of which a part of the first one is read.
unfoldable pub lines_from : Bytes → Bytes → List Bytes
unfolding drop_return
lines_from line [] = if is_empty line then [] else line ∷ []
lines_from line (b ∷ bs) =
    let ended = drop_return line ∷ lines_from [] bs in
    let longer = lines_from (line ++ b ∷ []) bs in if b == 10 then ended else longer

abbrev pub lines : Bytes → List Bytes
lines file = lines_from [] file

-- What the bytes so far leave open: a character, or the rest of a space of several bytes.
pub data Awaits : Type 0 where
  a_char after_c2 after_e1 after_e1_9a after_e2 after_e2_80 after_e2_81 after_e3 after_e3_80 :
      Awaits

unfoldable pub space_step : Awaits → ℕ → Option Awaits
space_step a_char b =
    if (leb 9 b && leb b 13) || b == 32
    then some a_char
    else if b == 0xc2
    then some after_c2
    else if b == 0xe1
    then some after_e1
    else if b == 0xe2
    then some after_e2
    else if b == 0xe3
    then some after_e3
    else none
space_step after_c2 b = if b == 0x85 || b == 0xa0 then some a_char else none
space_step after_e1 b = if b == 0x9a then some after_e1_9a else none
space_step after_e1_9a b = if b == 0x80 then some a_char else none
space_step after_e2 b =
    if b == 0x80 then some after_e2_80 else if b == 0x81 then some after_e2_81 else none
space_step after_e2_80 b =
    if (leb 0x80 b && leb b 0x8a) || b == 0xa8 || b == 0xa9 || b == 0xaf then some a_char else none
space_step after_e2_81 b = if b == 0x9f then some a_char else none
space_step after_e3 b = if b == 0x80 then some after_e3_80 else none
space_step after_e3_80 b = if b == 0x80 then some a_char else none

unfoldable pub blank_from : Awaits → Bytes → Bool
unfolding space_step
blank_from a_char [] = true
blank_from awaits [] = false
blank_from awaits (b ∷ bs) = elim (space_step awaits b) [
  | none ↦ false
  | some next ↦ blank_from next bs
]

-- `trim().is_empty()`.
unfoldable pub is_blank : Bytes → Bool
unfolding blank_from
is_blank text = blank_from a_char text

drop_return-brace : (line : Bytes) → last? line ≡ some 125 → drop_return line ≡ line
unfolding drop_return
drop_return-brace [] h = refl
drop_return-brace (b ∷ []) h = ground arith
drop_return-brace (b ∷ c ∷ bs) h = ap (◌∷◌ b) (drop_return-brace (c ∷ bs) h)

space_step-brace : (awaits : Awaits) → space_step awaits 125 ≡ none
unfolding space_step
space_step-brace a_char = refl
space_step-brace after_c2 = refl
space_step-brace after_e1 = refl
space_step-brace after_e1_9a = refl
space_step-brace after_e2 = refl
space_step-brace after_e2_80 = refl
space_step-brace after_e2_81 = refl
space_step-brace after_e3 = refl
space_step-brace after_e3_80 = refl

blank_from-brace :
    (awaits : Awaits) (text : Bytes) → last? text ≡ some 125 → blank_from awaits text ≡ false
unfolding blank_from
blank_from-brace awaits [] h = absurd cc
blank_from-brace awaits (b ∷ []) h =
    let e : b ≡ 125 = cc in rw (e, blank_from, space_step-brace awaits) refl
blank_from-brace awaits (b ∷ c ∷ bs) h = elim (Option-cases (space_step awaits b)) [
  | inl e ↦ rw (e, blank_from) refl
  | inr (next, e) ↦ rw (e, blank_from) (blank_from-brace next (c ∷ bs) h)
]

pub is_blank-brace : (text : Bytes) → last? text ≡ some 125 → is_blank text ≡ false
unfolding is_blank
is_blank-brace text h = blank_from-brace a_char text h

pub no_line : lines [] ≡ []
unfolding lines_from
no_line = refl

ended_line :
    (line bs : Bytes) (b : ℕ)
    → (b == 10) ≡ true
    → lines_from line (b ∷ bs) ≡ drop_return line ∷ lines bs
unfolding lines_from
ended_line line bs b h = rw h refl

longer_line :
    (line bs : Bytes) (b : ℕ)
    → (b == 10) ≡ false
    → lines_from line (b ∷ bs) ≡ lines_from (line ++ b ∷ []) bs
unfolding lines_from
longer_line line bs b h = rw h refl

-- A file whose last line is ended is read on from there.
pub lines-append :
    (line file rest : Bytes)
    → last? file ≡ some 10
    → lines_from line (file ++ rest) ≡ lines_from line file ++ lines rest
lines-append line [] rest h = absurd cc
lines-append line (b ∷ []) rest h =
    let e : (b == 10) ≡ true = ground arith in
    rw (ended_line line rest b e, ended_line line [] b e, no_line) refl
lines-append line (b ∷ c ∷ bs) rest h = elim (Bool-cases (b == 10)) [
  | inl e ↦
      rw (ended_line line (c ∷ bs ++ rest) b e, ended_line line (c ∷ bs) b e)
        (ap (◌∷◌ (drop_return line)) (lines-append [] (c ∷ bs) rest h))
  | inr e ↦
      rw (longer_line line (c ∷ bs ++ rest) b e, longer_line line (c ∷ bs) b e)
        (lines-append (line ++ b ∷ []) (c ∷ bs) rest h)
]

-- One whole line.
pub lines-line :
    (line rest : Bytes)
    → All (λ b. b ≢ 10) rest
    → last? (line ++ rest) ≡ some 125
    → lines_from line (rest ++ 10 ∷ []) ≡ (line ++ rest) ∷ []
lines-line line [] a h =
    ended_line line [] 10 refl
    ∙ (ap (λ l. l ∷ lines []) (drop_return-brace line (ap last? (sym (append-nil line)) ∙ h))
        ∙ rw (no_line, append-nil line) refl)
lines-line line (b ∷ bs) a h =
    let e : (b == 10) ≡ false = ground (arith, a.0) in
    longer_line line (bs ++ 10 ∷ []) b e
    ∙ (lines-line (line ++ b ∷ []) bs a.1 (ap last? (append_assoc line (b ∷ []) bs) ∙ h)
        ∙ ap (λ l. l ∷ []) (append_assoc line (b ∷ []) bs))

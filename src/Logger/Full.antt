-- ===== src/Logger/Full.antt =====
-- What a log statement writes.
use codechiev.Common.{
  ℕ, ◌-◌, ◌<◌, ◌≡◌, refl, sym, ap, ◌∙◌, Option, none, some, List, [], ◌∷◌, ◌++◌, length, take, drop,
  replicate, All, ℤ, arith, ◌>>=◌, if◌then◌else◌, ltb, length-drop, length-replicate, Option-cases,
  inl, inr, lt→ltb, ge→ltb,
}
use native.Mathlib.Decide.{dec_lt}
use codechiev.Buffer
use codechiev.Buffer.{Buffer, readable}
use codechiev.Buffer.Memory.{load-append}
use codechiev.Buffer.Layout.{layout, Fills, new-layout, readable-layout}
use codechiev.Logger.{
  Level, Config, buffer_size, closing, log_check, put, put_all, cut_last, Site, Value, finish, log,
}
use codechiev.Logger.Lines.{
  IsText, joined, put-layout, put_all-layout, put_all_full, put_all-append,
}
use codechiev.Logger.Chain.{put_all-one, texts, write_line-put_all}

closing-IsText : IsText closing
closing-IsText = (omega arith, (omega arith, (omega arith, (omega arith, tt))))

-- What is written: the line and its end, or nothing after a fault.
abbrev pub line_of : List ℕ → Option (List ℕ)
line_of line =
    if ltb (length line) 2047 then some (line ++ take (2047 - length line) closing) else none

-- What finish writes when the texts fit, and when they do not.
finish-layout :
    (xs post : List ℕ)
    → Fills buffer_size [] xs post
    → 0 < length post
    → finish (layout [] xs post) ≡ some (xs ++ take (length post) closing)
unfolding finish
finish-layout xs post fills room =
    let all : List ℕ = xs ++ take (length post) closing in
    let rest : List ℕ = drop (length closing) post in
    rw
      (
        put-layout xs post fills closing closing-IsText (λ _. room),
        readable-layout [] all rest,
        load-append [] (0 ∷ rest) (all ++ (0 ∷ rest)) 0 all (length all) refl refl refl,
      )
      refl

new-room : Buffer.new buffer_size ≡ layout [] [] (replicate 2047 0)
new-room = new-layout 2047

faults_at_end : (m : Option Buffer) → (m >>= put_all (closing ∷ [])) ≡ none → (m >>= finish) ≡ none
unfolding finish
faults_at_end none h = refl
faults_at_end (some b) h = elim (Option-cases (put closing b)) [
  | inl fault ↦ rw (fault) refl
  | inr next ↦
      let never = sym h ∙ sym (put_all-one closing b) ∙ next.1 in
      let e : none ≡ some next.0 = never in cc
]

-- In any free room of 2047 bytes.
put_all-line :
    (strs : List (List ℕ)) (post : List ℕ)
    → Fills buffer_size [] [] post
    → All IsText strs
    → (put_all strs (layout [] [] post) >>= finish) ≡ line_of (joined strs)
put_all-line strs post fills all_text = elim (dec_lt (length (joined strs)) 2047) [
  | yes fits ↦
      let left : length (drop (length (joined strs)) post) ≡ 2047 - length (joined strs) =
        omega (arith, fills, length-drop (length (joined strs)) post) in
      rw
        (
          put_all-layout strs [] post fills all_text (omega (arith, fills, fits)),
          lt→ltb (length (joined strs)) 2047 fits,
        )
        (finish-layout (joined strs) (drop (length (joined strs)) post)
            (omega (arith, fills, fits, left)) (omega (arith, fits, left))
          ∙ ap (λ (n : ℕ). some (joined strs ++ take n closing)) left)
  | no full ↦ rw (ge→ltb (length (joined strs)) 2047 (omega arith)) (
      faults_at_end (put_all strs (layout [] [] post)) (
        sym (put_all-append strs (closing ∷ []) (layout [] [] post))
        ∙ put_all_full strs closing [] post fills all_text closing-IsText (omega arith)
            (omega (arith, fills))))
]

module _ {F : Type 0} (cast : ℤ → List ℕ) (format format_f : F → List ℕ) where
  -- A log statement below the logger's level writes nothing. At or above the level, if none of its
  -- texts has a 0 in it, it writes the level, the time without its last character, what `gDetail`
  -- asks for, " ===", the values and "===\n", where the end is cut at the 2047th byte; if what
  -- stands in front of the end has 2047 bytes or more, `append` ends without a return value.
  pub log_lem :
      (config : Config) (site : Site) (lv : Level) (values : List (Value F)) (time : List ℕ)
      → cut_last site.time ≡ some (time ++ (0 ∷ []))
      → All IsText (texts cast format format_f config site time lv values)
      → log cast format format_f config site lv values ≡ (
          if log_check lv config
          then line_of (joined (texts cast format format_f config site time lv values))
          else some [])
  unfolding log
  log_lem config site lv values time e all_text =
      rw
        (
          write_line-put_all cast format format_f config site lv values time e all_text.1.1.0,
          new-room,
        )
        (rw
          (put_all-line (texts cast format format_f config site time lv values) (replicate 2047 0)
            room all_text)
          refl)
    where
      room : Fills buffer_size [] [] (replicate 2047 0)
      room = omega (arith, length-replicate 2047 (let z : ℕ = 0 in z))

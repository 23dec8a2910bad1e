-- ===== src/Logger/Chain.antt =====
-- The stages of a log statement as one chain of operator<<.
use codechiev.Common.{
  ℕ, ◌≡◌, refl, sym, ◌∙◌, Bool, true, false, Option, none, some, List, [], ◌∷◌, ◌++◌, map, ℤ, ◌>>=◌,
  if◌then◌else◌, append_assoc, Option-cases, inl, inr,
}
use codechiev.Buffer
use codechiev.Buffer.{Buffer, readable}
use codechiev.Buffer.Memory.{c_str-nonzero}
use codechiev.Logger.{
  Level, level_name, Config, buffer_size, colon, file_label, line_label, func_label, thread_label,
  tid_label, opening, put, put_all, cut_last, base_name, Site, Value, show, put_values, begin,
  finish, write_line,
}
use codechiev.Logger.Lines.{IsText, put_all-append}

abbrev pub part : Bool → List (List ℕ) → List (List ℕ)
part true strs = strs
part false strs = []

-- A stage of a chain whose rest puts `more`.
put-bind :
    (str : List ℕ) (more : List (List ℕ)) (b : Buffer) (f : Buffer → Option Buffer)
    → ((b' : Buffer) → f b' ≡ put_all more b')
    → (put str b >>= f) ≡ put_all (str ∷ more) b
unfolding put_all
put-bind str more b f h = elim (Option-cases (put str b)) [
  | inl fault ↦ rw (fault) refl
  | inr next ↦ rw (next.1) (h next.0)
]

put_all-bind :
    (strs more : List (List ℕ)) (b : Buffer) (f : Buffer → Option Buffer)
    → ((b' : Buffer) → f b' ≡ put_all more b')
    → (put_all strs b >>= f) ≡ put_all (strs ++ more) b
put_all-bind strs more b f h =
    elim (Option-cases (put_all strs b)) [
      | inl fault ↦ rw (fault) refl
      | inr next ↦ rw (next.1) (h next.0)
    ]
    ∙ sym (put_all-append strs more b)

part-bind :
    (c : Bool) (strs more : List (List ℕ)) (b : Buffer) (f : Buffer → Option Buffer)
    → ((b' : Buffer) → f b' ≡ put_all more b')
    → ((if c then put_all strs b else some b) >>= f) ≡ put_all (part c strs ++ more) b
part-bind true strs more b f h = put_all-bind strs more b f h
part-bind false strs more b f h = h b

pub put_all-one : (str : List ℕ) (b : Buffer) → put str b ≡ put_all (str ∷ []) b
unfolding put_all
put_all-one str b = elim (Option-cases (put str b)) [
  | inl fault ↦ rw (fault) refl
  | inr next ↦ rw (next.1) refl
]

-- The 0 that takes the place of the last character of the time ends the text.
put-cut : (time : List ℕ) (b : Buffer) → IsText time → put (time ++ (0 ∷ [])) b ≡ put time b
unfolding put Buffer.append_str
put-cut time b h =
    rw (append_assoc time (0 ∷ []) (0 ∷ []), c_str-nonzero time (0 ∷ []) h, c_str-nonzero time [] h)
      refl

put_all-cut :
    (str time : List ℕ) (b : Buffer)
    → IsText time
    → put_all (str ∷ (time ++ (0 ∷ [])) ∷ []) b ≡ put_all (str ∷ time ∷ []) b
unfolding put_all
put_all-cut str time b h = elim (Option-cases (put str b)) [
  | inl fault ↦ rw (fault) refl
  | inr next ↦ rw (next.1, put-cut time next.0 h) refl
]

module _ {F : Type 0} (cast : ℤ → List ℕ) (format format_f : F → List ℕ) where
  -- The texts in front of the values. `time` is the text of the time without its last character.
  abbrev pub header : Config → Site → List ℕ → Level → List (List ℕ)
  header config site time lv =
      level_name lv
      ∷ ((colon ∷ time ∷ [])
          ++ (part config.detail_file
                (file_label ∷ base_name [] site.file ∷ line_label ∷ cast site.line ∷ [])
              ++ (part config.detail_func (func_label ∷ site.func ∷ [])
                  ++ (part config.detail_thread
                        (thread_label ∷ site.thread_name ∷ tid_label ∷ cast site.tid ∷ [])
                      ++ (opening ∷ [])))))

  abbrev pub texts : Config → Site → List ℕ → Level → List (Value F) → List (List ℕ)
  texts config site time lv values =
      header config site time lv ++ map (show cast format format_f) values

  begin-put_all :
      (config : Config) (site : Site) (lv : Level) (time : List ℕ)
      → cut_last site.time ≡ some (time ++ (0 ∷ []))
      → IsText time
      → begin cast format format_f config site lv
        ≡ put_all (header config site time lv) (Buffer.new buffer_size)
  unfolding begin
  begin-put_all config site lv time e is_text =
      let opened : List (List ℕ) = opening ∷ [] in
      let thread : List (List ℕ) =
        thread_label ∷ site.thread_name ∷ tid_label ∷ cast site.tid ∷ [] in
      let after_func : List (List ℕ) = part config.detail_thread thread ++ opened in
      let func : List (List ℕ) = func_label ∷ site.func ∷ [] in
      let after_file : List (List ℕ) = part config.detail_func func ++ after_func in
      let file : List (List ℕ) =
        file_label ∷ base_name [] site.file ∷ line_label ∷ cast site.line ∷ [] in
      let after_time : List (List ℕ) = part config.detail_file file ++ after_file in
      rw (e) (
        put-bind (level_name lv) ((colon ∷ time ∷ []) ++ after_time) (Buffer.new buffer_size) _
          (λ named. rw (put_all-cut colon time named is_text) (
            put_all-bind (colon ∷ time ∷ []) after_time named _ (λ timed.
              part-bind config.detail_file file after_file timed _ (λ filed.
                part-bind config.detail_func func after_func filed _ (λ funced.
                  part-bind config.detail_thread thread opened funced _
                    (λ threaded. put_all-one opening threaded)))))))

  put_values-put_all :
      (values : List (Value F)) (b : Buffer)
      → put_values cast format format_f values b
        ≡ put_all (map (show cast format format_f) values) b
  unfolding put_values put_all
  put_values-put_all [] b = refl
  put_values-put_all (v ∷ vs) b = elim (Option-cases (put (show cast format format_f v) b)) [
    | inl fault ↦ rw (fault) refl
    | inr next ↦ rw (next.1) (put_values-put_all vs next.0)
  ]

  -- A line is one chain of operator<<, behind which the buffer is written.
  pub write_line-put_all :
      (config : Config) (site : Site) (lv : Level) (values : List (Value F)) (time : List ℕ)
      → cut_last site.time ≡ some (time ++ (0 ∷ []))
      → IsText time
      → write_line cast format format_f config site lv values
        ≡ (put_all (texts config site time lv values) (Buffer.new buffer_size) >>= finish)
  unfolding write_line
  write_line-put_all config site lv values time e is_text =
      rw
        (
          begin-put_all config site lv time e is_text,
          put_all-append (header config site time lv) (map (show cast format format_f) values)
              (Buffer.new buffer_size),
        )
        (go (put_all (header config site time lv) (Buffer.new buffer_size)))
    where
      go :
          (m : Option Buffer)
          → (m >>= λ b. (put_values cast format format_f values b >>= finish))
            ≡ ((m >>= put_all (map (show cast format format_f) values)) >>= finish)
      go none = refl
      go (some b) = rw (put_values-put_all values b) refl

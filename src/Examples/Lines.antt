-- ===== src/Examples/Lines.antt =====
-- A log statement with one value.
use codechiev.Common.{
  ℕ, ◌≡◌, refl, true, false, some, List, [], ◌∷◌, ◌++◌, ℤ, pos, arith, All, if◌then◌else◌,
}
use codechiev.Logger.{Config, Site, Value, text, info, warn, cut_last, base_name, log, log_check}
use codechiev.Logger.Lines.{joined, IsText}
use codechiev.Logger.Chain.{texts}
use codechiev.Logger.Full.{line_of, log_lem}

abbrev config : Config
config = record { level = info; detail_thread = false; detail_file = true; detail_func = false }

-- "/a" and "12\n"
abbrev site : Site
site = record {
  file = 47 ∷ 97 ∷ [];
  func = 102 ∷ [];
  line = pos 7;
  time = 49 ∷ 50 ∷ 10 ∷ [];
  thread_name = [];
  tid = pos 1;
}

-- The texts of numbers and of doubles, for this example.
abbrev digit : ℤ → List ℕ
digit n = 55 ∷ []

abbrev no_digits : ℕ → List ℕ
no_digits n = []

abbrev values : List (Value ℕ)
values = text (111 ∷ 107 ∷ []) ∷ []

cut : cut_last site.time ≡ some ((49 ∷ 50 ∷ []) ++ (0 ∷ []))
unfolding cut_last
cut = refl

All-IsText : All IsText (texts digit no_digits no_digits config site (49 ∷ 50 ∷ []) warn values)
unfolding base_name
All-IsText = (
  (omega arith, (omega arith, (omega arith, (omega arith, tt)))),
  (
    (omega arith, (omega arith, tt)),
    (
      (omega arith, (omega arith, tt)),
      (
        (
          omega arith,
          (omega arith, (omega arith, (omega arith, (omega arith, (omega arith, tt))))),
        ),
        (
          (omega arith, tt),
          (
            (
              omega arith,
              (omega arith, (omega arith, (omega arith, (omega arith, (omega arith, tt))))),
            ),
            (
              (omega arith, tt),
              (
                (omega arith, (omega arith, (omega arith, (omega arith, tt)))),
                ((omega arith, (omega arith, tt)), tt),
              ),
            ),
          ),
        ),
      ),
    ),
  ),
)

log_lem_example : log digit no_digits no_digits config site warn values ≡ (
    if log_check warn config
    then line_of (joined (texts digit no_digits no_digits config site (49 ∷ 50 ∷ []) warn values))
    else some [])
log_lem_example =
    log_lem digit no_digits no_digits config site warn values (49 ∷ 50 ∷ []) cut All-IsText

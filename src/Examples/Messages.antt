-- ===== src/Examples/Messages.antt =====
-- Two short messages in a stream that is cut in the middle of a header.
use codechiev.Common.{ℕ, ◌≡◌, ◌⊎◌, ◌↔◌, refl, some, none, List, [], ◌∷◌, All, pos, arith}
use codechiev.Coder.Outcome.{Stops}
use codechiev.Coder.Total.{HasWrap, drain-ends}
use codechiev.Internet.Bytes.{little, IsByte}
use codechiev.Buffer.{Buffer, new, readable}
use codechiev.Buffer.Layout.{layout}
use codechiev.Coder.{drain}
use codechiev.Coder.Stream.{receive}
use codechiev.Coder.Reassembly.{receive-frames}

abbrev messages : List (List ℕ)
messages = (65 ∷ 66 ∷ []) ∷ [] ∷ (67 ∷ []) ∷ []

-- 0 0 0 2 65 66, 0 0 0 0, 0 0 0 1 67
abbrev pieces : List (List ℕ)
pieces =
    (0 ∷ 0 ∷ 0 ∷ 2 ∷ 65 ∷ []) ∷ (66 ∷ 0 ∷ 0 ∷ []) ∷ (0 ∷ 0 ∷ 0 ∷ 0 ∷ 0 ∷ []) ∷ (1 ∷ 67 ∷ []) ∷ []

receive-frames_example :
    (b : Buffer) × (receive little 16 16 (new 16) pieces ≡ some (messages, b))
    × (readable b ≡ some (pos 0))
receive-frames_example =
    receive-frames little 16 8 messages pieces (omega arith) (omega arith)
      (omega arith, (omega arith, (omega arith, tt)))
      (omega arith, (omega arith, (omega arith, (omega arith, tt)))) refl

-- One message, and a header that announces nine bytes before two of them.
abbrev cut_off : List ℕ
cut_off = 0 ∷ 0 ∷ 0 ∷ 1 ∷ 65 ∷ 0 ∷ 0 ∷ 0 ∷ 9 ∷ 66 ∷ 67 ∷ []

cut_off-IsByte : All IsByte cut_off
cut_off-IsByte = (
  omega arith,
  (
    omega arith,
    (
      omega arith,
      (
        omega arith,
        (
          omega arith,
          (
            omega arith,
            (omega arith, (omega arith, (omega arith, (omega arith, (omega arith, tt))))),
          ),
        ),
      ),
    ),
  ),
)

drain-ends_example :
    (Stops little 12 (layout [] cut_off []) cut_off
      ⊎ (drain little 12 (layout [] cut_off []) ≡ none))
    × ((drain little 12 (layout [] cut_off []) ≡ none) ↔ HasWrap cut_off)
drain-ends_example = drain-ends little 12 [] cut_off [] cut_off-IsByte (omega arith) (omega arith)

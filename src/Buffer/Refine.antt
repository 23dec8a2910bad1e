-- ===== src/Buffer/Refine.antt =====
-- A buffer refines a bounded queue of bytes.
use codechiev.Common.{
  ℕ, zero, suc, ◌+◌, ◌≤◌, ◌<◌, ◌≡◌, refl, sym, ap, ◌∙◌, none, some, List, [], ◌∷◌, ◌++◌, length,
  take, drop, min, replicate, pos, arith, length-append, length-drop, length-take, length-replicate,
  take-append-drop, take-all, Bool-cases, >>=-eq-some, length-eq_zero, some-injective, ltb→lt,
  leb→le, inl, inr, Bool, false, leb, ltb, if◌then◌else◌,
}
use native.Mathlib.Decide.{dec_lt}
use mathlib.Core.Path.{ap₂, subst}
use codechiev.Buffer.{Buffer, new, read, append, readall}
use codechiev.Buffer.Layout.{layout, new-layout}
use codechiev.Buffer.Append.{append-layout, append_full}
use codechiev.Buffer.Queue.{
  Queue, Op, appends, reads, moves, clears, perform, performs, room, step, steps, Holds,
}
use codechiev.Buffer.Consume.{tail_room, length-tail_room, read-layout, move-layout}

take-min : (n : ℕ) (xs : List ℕ) → take (min (length xs) n) xs ≡ take n xs
take-min n xs = elim (dec_lt n (length xs)) [
  | yes h ↦ ap (λ (k : ℕ). take k xs) (omega arith)
  | no h ↦
      ap (λ (k : ℕ). take k xs) (let e : min (length xs) n ≡ length xs = omega arith in e)
      ∙ take-all (length xs) xs (omega arith)
      ∙ sym (take-all n xs (omega arith))
]

-- What a call on the buffer gives where the queue gives `q'`.
abbrev Follows : ℕ → Buffer → Op → Queue → Type 0
Follows size b op q' = (b' : Buffer) × (perform size b op ≡ some b') × Holds size b' q'

appends-Follows :
    (size : ℕ) (b : Buffer) (q : Queue) (source : List ℕ)
    → Holds size b q
    → (0 < length source → 0 < room size q)
    → Follows size b (appends source) (record q { bytes = q.bytes ++ take (room size q) source })
unfolding perform room
appends-Follows size b q source h free = rw h.shape (
  _,
  rw
      (append-layout size h.pre q.bytes h.post h.fills source (length source) (omega arith)
        λ p. omega (arith, left, free p))
      refl,
  record {
    pre = h.pre;
    post = drop n h.post;
    shape = ap (λ (ys : List ℕ). layout h.pre (q.bytes ++ ys) (drop n h.post)) kept;
    fills = omega (
      arith,
      length-append q.bytes (take (room size q) source),
      length-drop n h.post,
      length-take (room size q) source,
      left,
      h.fills,
    );
    behind = h.behind;
  },
)
  where
    n : ℕ
    n = min (length source) (length h.post)

    left : length h.post ≡ room size q
    left = omega (arith, h.fills, h.behind)

    kept : take n source ≡ take (room size q) source
    kept = rw left (take-min (room size q) source)

reads-Follows :
    (size : ℕ) (b : Buffer) (q : Queue) (n : ℕ)
    → Holds size b q
    → n ≤ length q.bytes
    → Follows size b (reads n) (record { bytes = drop n q.bytes; used = q.used + n })
unfolding perform
reads-Follows size b q n h le = rw h.shape (
  _,
  ap some (
      ap₂ (λ (ys : List ℕ) (k : ℕ). read (layout h.pre ys h.post) (pos k))
        (sym (take-append-drop n q.bytes)) (sym size_of)
      ∙ read-layout h.pre (take n q.bytes) (drop n q.bytes) h.post),
  record {
    pre = h.pre ++ take n q.bytes;
    post = h.post;
    shape = refl;
    fills =
        omega
          (arith, length-append h.pre (take n q.bytes), size_of, length-drop n q.bytes, h.fills);
    behind = omega (arith, length-append h.pre (take n q.bytes), size_of, h.behind);
  },
)
  where
    size_of : length (take n q.bytes) ≡ n
    size_of = omega (arith, length-take n q.bytes)

moves-Follows :
    (size : ℕ) (b : Buffer) (q : Queue)
    → Holds size b q
    → Follows size b moves (record q { used = 0 })
unfolding perform
moves-Follows size b q h = rw h.shape (
  _,
  move-layout h.pre q.bytes h.post,
  record {
    pre = [];
    post = tail_room h.pre q.bytes h.post;
    shape = refl;
    fills = omega (arith, length-tail_room h.pre q.bytes h.post, h.fills);
    behind = refl;
  },
)

pub new-Holds : (size : ℕ) → 0 < size → Holds size (new size) (record { bytes = []; used = 0 })
new-Holds zero h = absurd (omega arith)
new-Holds (suc n) h = record {
  pre = [];
  post = replicate n 0;
  shape = new-layout n;
  fills = omega (arith, length-replicate n (let z : ℕ = 0 in z));
  behind = refl;
}

clash : {t : Bool} (q : Queue) {q' : Queue} → t ≡ false → (if t then some q else none) ≡ some q' → ⊥
clash q t e = cc

perform-Holds :
    (size : ℕ) (b : Buffer) (q : Queue) (op : Op) (q' : Queue)
    → Holds size b q
    → step size q op ≡ some q'
    → Follows size b op q'
unfolding step append perform readall new
perform-Holds size b q (appends []) q' h e = (b, refl, subst (Holds size b) (some-injective e) h)
perform-Holds size b q (appends (c ∷ cs)) q' h e = elim (Bool-cases (ltb 0 (room size q))) [
  | inl free ↦
      subst (Follows size b (appends (c ∷ cs))) (some-injective (rw free at e))
        (appends-Follows size b q (c ∷ cs) h (λ _. ltb→lt 0 (room size q) free))
  | inr full ↦ absurd (clash _ full e)
]
perform-Holds size b q (reads n) q' h e = elim (Bool-cases (leb n (length q.bytes))) [
  | inl le ↦
      subst (Follows size b (reads n)) (some-injective (rw le at e))
        (reads-Follows size b q n h (leb→le n (length q.bytes) le))
  | inr gt ↦ absurd (clash _ gt e)
]
perform-Holds size b q moves q' h e =
    subst (Follows size b moves) (some-injective e) (moves-Follows size b q h)
perform-Holds size b q clears q' h e =
    subst (Follows size b clears) (some-injective e)
      (new size, refl, new-Holds size (omega (arith, h.fills)))

-- A buffer refines a bounded queue of bytes: while the queue accepts the calls (`append`, `read`,
-- `move`, `readall`), the buffer that holds the queue's bytes does not fault, and then holds what
-- the queue then holds.
pub performs_refine :
    (size : ℕ) (b : Buffer) (q : Queue) (ops : List Op) (q' : Queue)
    → Holds size b q
    → steps size q ops ≡ some q'
    → (b' : Buffer) × (performs size b ops ≡ some b') × Holds size b' q'
unfolding performs steps
performs_refine size b q [] q' h e = (b, refl, subst (Holds size b) (some-injective e) h)
performs_refine size b q (op ∷ ops) q' h e =
    let (q₁, first, rest) = >>=-eq-some (step size q op) (λ r. steps size r ops) e in
    let (b₁, done, h₁) = perform-Holds size b q op q₁ h first in
    let (b', last, h') = performs_refine size b₁ q₁ ops q' h₁ rest in (b', rw done last, h')

-- If a buffer is full and the source is not empty, `append` ends without a return value.
pub appends_full :
    (size : ℕ) (b : Buffer) (q : Queue) (source : List ℕ)
    → Holds size b q
    → room size q ≡ 0
    → 0 < length source
    → perform size b (appends source) ≡ none
unfolding perform room
appends_full size b q source h full some_byte =
    rw
      (
        h.shape,
        append_full size h.pre q.bytes h.post h.fills source (length source)
            (length-eq_zero h.post (omega (arith, h.fills, h.behind, full))) some_byte,
      )
      refl

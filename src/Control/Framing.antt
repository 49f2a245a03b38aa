-- ===== src/Control/Framing.antt =====
-- What is received from a stream, and the chunks it is cut into.
use mathlib.Core.Path.{subst}
use mathlib.Core.List.{append-nil, append_assoc, flatten}
use ajit_segment_bots.Control.{Stream, put_back, receive_loop, pack, receive_exactly, unpack}
use ajit_segment_bots.Prelude.{
  take, drop, take-exact, drop-exact, ℕ, All, List, [], ◌≢◌, ◌++◌, ◌-◌, ◌<◌, Option, ap, arith,
  length, refl, some, suc, sym, zero, ◌∙◌, ◌∷◌, ◌≡◌, ◌≤◌, ◌+◌, ◌^◌, length-append,
}

-- No chunk is empty.
abbrev pub IsStream : Stream → Type 0
IsStream = All (λ (chunk : List ℕ). chunk ≢ [])

sub_zero : (a : ℕ) → a - 0 ≡ a
sub_zero a = omega arith

sub_suc : (a b : ℕ) → suc a - suc b ≡ a - b
sub_suc a b = omega arith

take-append-take :
    (n : ℕ) (c t : List ℕ)
    → take n c ++ take (n - length (take n c)) (drop n c ++ t) ≡ take n (c ++ t)
take-append-take zero c t = refl
take-append-take (suc n) [] t = ap (λ k. take k t) (sub_zero (suc n))
take-append-take (suc n) (x ∷ c) t =
    ap (◌∷◌ x) (rw (sub_suc n (length (take n c))) (take-append-take n c t))

drop-drop : (n : ℕ) (c t : List ℕ) → drop (n - length (take n c)) (drop n c ++ t) ≡ drop n (c ++ t)
drop-drop zero c t = refl
drop-drop (suc n) [] t = ap (λ k. drop k t) (sub_zero (suc n))
drop-drop (suc n) (x ∷ c) t = rw (sub_suc n (length (take n c))) (drop-drop n c t)

flatten-put_back : (xs : List ℕ) (s : Stream) → flatten (put_back xs s) ≡ xs ++ flatten s
unfolding flatten
flatten-put_back [] s = refl
flatten-put_back (x ∷ xs) s = refl

put_back-IsStream : (xs : List ℕ) (s : Stream) → IsStream s → IsStream (put_back xs s)
put_back-IsStream [] s h = h
put_back-IsStream (x ∷ xs) s h = ((λ e. cc e), h)

enough :
    (n : ℕ) (c t : List ℕ) → n ≤ length (c ++ t) → n - length (take n c) ≤ length (drop n c ++ t)
enough zero c t h = omega arith
enough (suc n) [] t h = omega arith
enough (suc n) (x ∷ c) t h = omega (arith, enough n c t (omega arith))

pub record Received (bytes rest : List ℕ) (r : Option (List ℕ) × Stream) : Type 0 where
  pub got : r.0 ≡ some bytes
  pub left : flatten r.1 ≡ rest
  pub stream : IsStream r.1

receive_loop_step :
    (fuel n x : ℕ) (acc c : List ℕ) (s : Stream)
    → receive_loop (suc fuel) (suc n) acc ((x ∷ c) ∷ s)
      ≡ receive_loop fuel (n - length (take n c)) (acc ++ x ∷ take n c) (put_back (drop n c) s)
unfolding receive_loop
receive_loop_step fuel n x acc c s = ground (arith, sub_suc n (length (take n c)))

receive_loop-Received :
    (fuel n : ℕ) (acc : List ℕ) (s : Stream)
    → n < fuel
    → n ≤ length (flatten s)
    → IsStream s
    → Received (acc ++ take n (flatten s)) (drop n (flatten s)) (receive_loop fuel n acc s)
unfolding receive_loop flatten
receive_loop-Received zero n acc s h le v = absurd (omega arith)
receive_loop-Received (suc fuel) zero acc s h le v = record {
  got = ap some (sym (append-nil acc));
  left = refl;
  stream = v;
}
receive_loop-Received (suc fuel) (suc n) acc [] h le v = absurd (omega arith)
receive_loop-Received (suc fuel) (suc n) acc ([] ∷ s) h le v = absurd (v.0 refl)
receive_loop-Received (suc fuel) (suc n) acc ((x ∷ c) ∷ s) h le v =
    let m = n - length (take n c) in
    let s' = put_back (drop n c) s in
    let ih =
      receive_loop-Received fuel m (acc ++ x ∷ take n c) s' (omega arith)
        (rw (flatten-put_back (drop n c) s) (enough n c (flatten s) (omega arith)))
        (put_back-IsStream (drop n c) s v.1) in
    subst (Received (acc ++ take (suc n) (x ∷ c ++ flatten s)) (drop (suc n) (x ∷ c ++ flatten s)))
      (sym (receive_loop_step fuel n x acc c s))
      (record {
        got =
            ih.got
            ∙ ap some (
                ap (λ t. (acc ++ x ∷ take n c) ++ take m t) (flatten-put_back (drop n c) s)
                ∙ append_assoc acc (x ∷ take n c) (take m (drop n c ++ flatten s))
                ∙ ap (λ t. acc ++ x ∷ t) (take-append-take n c (flatten s)));
        left = ih.left ∙ ap (drop m) (flatten-put_back (drop n c) s) ∙ drop-drop n c (flatten s);
        stream = ih.stream;
      })

-- If at least `count` bytes are to come, then however they are cut into chunks that are not empty,
-- exactly the first `count` are read, and the rest stays to be read.
receive_exactly-Received :
    (count : ℕ) (s : Stream)
    → count ≤ length (flatten s)
    → IsStream s
    → Received (take count (flatten s)) (drop count (flatten s)) (receive_exactly count s)
unfolding receive_exactly
receive_exactly-Received count s le v =
    receive_loop-Received (count + 1) count [] s (omega arith) le v

-- Reading as many bytes as a text has from a stream that begins with it.
pub receive_exactly-prefix :
    (xs ys : List ℕ) (n : ℕ) (s : Stream)
    → n ≡ length xs
    → flatten s ≡ xs ++ ys
    → IsStream s
    → Received xs ys (receive_exactly n s)
receive_exactly-prefix xs ys n s count e v =
    subst (λ t. Received t ys (receive_exactly n s))
      (ap (λ k. take k (flatten s)) count ∙ ap (take (length xs)) e ∙ take-exact xs ys)
      (subst (λ t. Received (take n (flatten s)) t (receive_exactly n s))
        (ap (λ k. drop k (flatten s)) count ∙ ap (drop (length xs)) e ∙ drop-exact xs ys)
        (receive_exactly-Received n s (rw (e, count) (omega (arith, length-append xs ys))) v))

pub unpack-pack : (n : ℕ) → n < 2 ^ 32 → unpack (pack n) ≡ n
unfolding unpack pack
unpack-pack n h = omega arith

-- ===== src/Mailbox/Newest.antt =====
-- Which of the unseen messages a poll over IMAP takes, and in which order.
use group_assessment_agent.Base.{
  ℕ, zero, suc, ◌+◌, ◌-◌, ◌≤◌, ◌≡◌, refl, ap, sym, ◌∙◌, Option, some, leb, Bool-cases, inl, inr,
  Text, length, drop, take, List, [], ◌∷◌, ◌++◌, arith,
}
use mathlib.Core.List.{reverse, reverse-cons}
use group_assessment_agent.Mailbox.Imap.{Message, Library, chosen, fetch_all, fetch_new_messages}

length-append : (l m : List Text) → length (l ++ m) ≡ length l + length m
length-append [] m = omega arith
length-append (x ∷ l) m = omega (arith, length-append l m)

take-append : (n : ℕ) (l m : List Text) → n ≤ length l → take n (l ++ m) ≡ take n l
take-append zero l m h = refl
take-append (suc n) [] m h = absurd (omega arith)
take-append (suc n) (x ∷ l) m h = ap (λ (r : List Text). x ∷ r) (take-append n l m (omega arith))

take-all : (n : ℕ) (l : List Text) → length l ≤ n → take n l ≡ l
take-all zero [] h = refl
take-all zero (x ∷ l) h = absurd (omega arith)
take-all (suc n) [] h = refl
take-all (suc n) (x ∷ l) h = ap (λ (r : List Text). x ∷ r) (take-all n l (omega arith))

length-reverse : (l : List Text) → length (reverse l) ≡ length l
length-reverse [] = refl
length-reverse (x ∷ l) =
    rw (reverse-cons x l) (omega (arith, length-append (reverse l) (x ∷ []), length-reverse l))

drop-nil : (n : ℕ) → drop {A = Text} n [] ≡ []
drop-nil zero = refl
drop-nil (suc n) = refl

take-nil : (n : ℕ) → take {A = Text} n [] ≡ []
take-nil zero = refl
take-nil (suc n) = refl

last-reverse : (n : ℕ) (l : List Text) → reverse (drop (length l - n) l) ≡ take n (reverse l)
last-reverse n [] = rw (drop-nil (0 - n)) (sym (take-nil n))
last-reverse n (x ∷ l) = elim (Bool-cases (leb n (length l))) [
  | inl few ↦
      let bound : n ≤ length l = ground arith in
      let one_more : suc (length l) - n ≡ suc (length l - n) = omega arith in
      let fits : n ≤ length (reverse l) = omega (arith, length-reverse l) in
      rw (one_more, reverse-cons x l)
        (last-reverse n l ∙ sym (take-append n (reverse l) (x ∷ []) fits))
  | inr all ↦
      let bound : suc (length l) ≤ n = ground arith in
      let none_left : suc (length l) - n ≡ 0 = omega arith in
      let fits : length (reverse (x ∷ l)) ≤ n = omega (arith, length-reverse (x ∷ l)) in
      rw none_left (sym (take-all n (reverse (x ∷ l)) fits))
]

-- A poll with a positive limit reads the newest messages that are not yet seen, as many as the limit
-- allows and the newest one first. The ids stand in the order of the mailbox, the oldest first.
pub fetch_takes_newest :
    (lib : Library) (ids : List Text) (fetch : Text → Option Message) (limit : ℕ)
    → fetch_new_messages lib (some ids) fetch (suc limit)
      ≡ fetch_all lib fetch (take (suc limit) (reverse ids))
unfolding fetch_new_messages chosen
fetch_takes_newest lib ids fetch limit = ap (fetch_all lib fetch) (last-reverse (suc limit) ids)

-- ===== src/Client/FileDb/Comparison.antt =====
-- The comparison of wstrings is a strict total order.
use wslg.Common.{ℕ, ◌≡◌, refl, List, [], ◌∷◌, true, arith}
use wslg.Client.FileDb.{less, same, greater, order, str_eq}

pub order_refl : (a : List ℕ) → order a a ≡ same
unfolding order
order_refl [] = refl
order_refl (a ∷ as') = ground (arith, order_refl as')

pub order-same : (a b : List ℕ) → order a b ≡ same → a ≡ b
unfolding order
order-same [] [] h = refl
order-same [] (b ∷ bs) h = cc
order-same (a ∷ as') [] h = cc
order-same (a ∷ as') (b ∷ bs) h = ground (arith, order-same as' bs)

pub order-less→greater : (a b : List ℕ) → order a b ≡ less → order b a ≡ greater
unfolding order
order-less→greater [] [] h = cc
order-less→greater [] (b ∷ bs) h = refl
order-less→greater (a ∷ as') [] h = cc
order-less→greater (a ∷ as') (b ∷ bs) h = ground (arith, order-less→greater as' bs)

pub order-greater→less : (a b : List ℕ) → order a b ≡ greater → order b a ≡ less
unfolding order
order-greater→less [] [] h = cc
order-greater→less [] (b ∷ bs) h = cc
order-greater→less (a ∷ as') [] h = refl
order-greater→less (a ∷ as') (b ∷ bs) h = ground (arith, order-greater→less as' bs)

pub order_trans : (a b c : List ℕ) → order a b ≡ less → order b c ≡ less → order a c ≡ less
unfolding order
order_trans [] [] c h k = cc
order_trans [] (b ∷ bs) [] h k = cc
order_trans [] (b ∷ bs) (c ∷ cs) h k = refl
order_trans (a ∷ as') [] c h k = cc
order_trans (a ∷ as') (b ∷ bs) [] h k = cc
order_trans (a ∷ as') (b ∷ bs) (c ∷ cs) h k = ground (arith, order_trans as' bs cs)

pub str_eq_refl : (a : List ℕ) → str_eq a a ≡ true
unfolding str_eq
str_eq_refl a = rw (order_refl a)

pub str_eq→eq : (a b : List ℕ) → str_eq a b ≡ true → a ≡ b
unfolding str_eq
str_eq→eq a b h = ground (arith, order-same a b)

pub order-same→str_eq : (a b : List ℕ) → order a b ≡ same → str_eq a b ≡ true
unfolding str_eq
order-same→str_eq a b h = rw h

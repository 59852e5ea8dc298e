-- ===== src/Boot/Trigger/Window.antt =====
-- The matcher looks at the last four bytes, whatever came before.
use rpitos.Prelude.{ℕ, ◌+◌, ◌*◌, ◌<◌, ◌≡◌, refl, ◌==◌, List, [], ◌∷◌, ◌++◌, arith, ◌&&◌, ap, ◌∙◌}
use rpitos.Boot.Trigger.{feed, feed_all, dfu_trigger_key}

abbrev pub IsBytes : List ℕ → Type 0
IsBytes [] = Unit
IsBytes (a ∷ xs) = (a < 256) × IsBytes xs

feed_all-append : (xs ys : List ℕ) (r : ℕ) → feed_all (xs ++ ys) r ≡ feed_all ys (feed_all xs r)
feed_all-append [] ys r = refl
feed_all-append (x ∷ xs) ys r = feed_all-append xs ys (feed x r).1

four :
    (r a b c d : ℕ)
    → a < 256
    → b < 256
    → c < 256
    → d < 256
    → (feed d (feed c (feed b (feed a r).1).1).1).1 ≡ a * 16777216 + b * 65536 + c * 256 + d
unfolding feed
four r a b c d h1 h2 h3 h4 = omega arith

key-bytes :
    (a b c d : ℕ)
    → a < 256
    → b < 256
    → c < 256
    → d < 256
    → (a * 16777216 + b * 65536 + c * 256 + d == dfu_trigger_key)
      ≡ ((a == 0xDF) && (b == 0) && (c == 0xDF) && (d == 0))
key-bytes a b c d h1 h2 h3 h4 = ground arith

-- dfu_trigger_feed, after any register and any bytes, answers yes at the last of four bytes exactly when the
-- four are DF 00 DF 00, in this order.
pub feed-window :
    (r : ℕ) (xs : List ℕ) (a b c d : ℕ)
    → a < 256
    → b < 256
    → c < 256
    → d < 256
    → (feed d (feed_all (xs ++ a ∷ b ∷ c ∷ []) r)).0
      ≡ ((a == 0xDF) && (b == 0) && (c == 0xDF) && (d == 0))
unfolding feed
feed-window r xs a b c d h1 h2 h3 h4 =
    let e = four (feed_all xs r) a b c d h1 h2 h3 h4 in
    rw (feed_all-append xs (a ∷ b ∷ c ∷ []) r)
      (ap (λ n. n == dfu_trigger_key) e ∙ key-bytes a b c d h1 h2 h3 h4)

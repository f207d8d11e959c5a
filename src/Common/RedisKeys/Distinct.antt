-- ===== src/Common/RedisKeys/Distinct.antt =====
-- The keys of common/src/redis_keys.rs for counters, cached links and last clicks: the kind of a key
-- and its short code can be read off its name.
use Prim.Native.Char.{Char, code}
use Prim.Native.String.{String, ◌++◌, ◌∷◌}
use text.Mathlib.TextLemmas.{append_cancel_left, cons-append, append_assoc, head-eq_of_cons-eq}
use k_url.Prelude.{◌≡◌, ◌≢◌, refl, sym, ap, ◌∙◌, arith}
use k_url.Common.RedisKeys.{
  global_stats_key, link_stats_key, link_cache_key, link_last_clicked_at_key,
}

-- A key of the counters of all links, of the counters or the last click of one link, or of a cached
-- link.
pub data Key : Type 0 where
  global_stats : Key
  link_stats link_cache link_last_clicked_at : String → Key

unfoldable pub name : Key → String
name global_stats = global_stats_key
name (link_stats c) = link_stats_key c
name (link_cache c) = link_cache_key c
name (link_last_clicked_at c) = link_last_clicked_at_key c

-- Two texts that first differ at one character.
differ : (p : String) (a b : Char) (s t : String) → code a ≢ code b → p ++ (a ∷ s) ≢ p ++ (b ∷ t)
differ p a b s t h e = h (ap code (head-eq_of_cons-eq (append_cancel_left p (a ∷ s) (b ∷ t) e)))

split_at : (p q c : String) (a : Char) → (p ++ (a ∷ q)) ++ c ≡ p ++ (a ∷ (q ++ c))
split_at p q c a = append_assoc p (a ∷ q) c ∙ ap (λ s. p ++ s) (cons-append a q c)

pub link_stats-ne-global : (c : String) → link_stats_key c ≢ global_stats_key
unfolding link_stats_key global_stats_key
link_stats-ne-global c e =
    differ "stats:" "l" "g" ("ink:" ++ c) "lobal" (λ h. omega arith)
      (sym (split_at "stats:" "ink:" c "l") ∙ e)

last_clicked-ne-global : (c : String) → link_last_clicked_at_key c ≢ global_stats_key
unfolding link_last_clicked_at_key global_stats_key
last_clicked-ne-global c e =
    differ "stats:" "l" "g" ("ast_clicked_at:" ++ c) "lobal" (λ h. omega arith)
      (sym (split_at "stats:" "ast_clicked_at:" c "l") ∙ e)

cache-ne-global : (c : String) → link_cache_key c ≢ global_stats_key
unfolding link_cache_key global_stats_key
cache-ne-global c e =
    differ "" "c" "s" ("ache:" ++ c) "tats:global" (λ h. omega arith)
      (sym (split_at "" "ache:" c "c") ∙ e)

link_stats-ne-last_clicked : (c d : String) → link_stats_key c ≢ link_last_clicked_at_key d
unfolding link_stats_key link_last_clicked_at_key
link_stats-ne-last_clicked c d e =
    differ "stats:l" "i" "a" ("nk:" ++ c) ("st_clicked_at:" ++ d) (λ h. omega arith)
      (sym (split_at "stats:l" "nk:" c "i") ∙ e ∙ split_at "stats:l" "st_clicked_at:" d "a")

cache-ne-link_stats : (c d : String) → link_cache_key c ≢ link_stats_key d
unfolding link_cache_key link_stats_key
cache-ne-link_stats c d e =
    differ "" "c" "s" ("ache:" ++ c) ("tats:link:" ++ d) (λ h. omega arith)
      (sym (split_at "" "ache:" c "c") ∙ e ∙ split_at "" "tats:link:" d "s")

cache-ne-last_clicked : (c d : String) → link_cache_key c ≢ link_last_clicked_at_key d
unfolding link_cache_key link_last_clicked_at_key
cache-ne-last_clicked c d e =
    differ "" "c" "s" ("ache:" ++ c) ("tats:last_clicked_at:" ++ d) (λ h. omega arith)
      (sym (split_at "" "ache:" c "c") ∙ e ∙ split_at "" "tats:last_clicked_at:" d "s")

pub link_cache_key-injective : (c d : String) → link_cache_key c ≡ link_cache_key d → c ≡ d
unfolding link_cache_key
link_cache_key-injective c d e = append_cancel_left _ c d e

-- Two keys of the kinds global_stats_key, link_stats_key, link_cache_key and link_last_clicked_at_key
-- with one name are one key: of one kind, and of one short code. Names that stats_key makes of other
-- texts are not considered.
pub name-injective : (k j : Key) → name k ≡ name j → k ≡ j
unfolding name
name-injective global_stats global_stats e = refl
name-injective global_stats (link_stats d) e = absurd (link_stats-ne-global d (sym e))
name-injective global_stats (link_cache d) e = absurd (cache-ne-global d (sym e))
name-injective global_stats (link_last_clicked_at d) e = absurd (last_clicked-ne-global d (sym e))
name-injective (link_stats c) global_stats e = absurd (link_stats-ne-global c e)
name-injective (link_stats c) (link_stats d) e =
    ap link_stats (unfold link_stats_key in append_cancel_left _ c d e)
name-injective (link_stats c) (link_cache d) e = absurd (cache-ne-link_stats d c (sym e))
name-injective (link_stats c) (link_last_clicked_at d) e = absurd (link_stats-ne-last_clicked c d e)
name-injective (link_cache c) global_stats e = absurd (cache-ne-global c e)
name-injective (link_cache c) (link_stats d) e = absurd (cache-ne-link_stats c d e)
name-injective (link_cache c) (link_cache d) e = ap link_cache (link_cache_key-injective c d e)
name-injective (link_cache c) (link_last_clicked_at d) e = absurd (cache-ne-last_clicked c d e)
name-injective (link_last_clicked_at c) global_stats e = absurd (last_clicked-ne-global c e)
name-injective (link_last_clicked_at c) (link_stats d) e =
    absurd (link_stats-ne-last_clicked d c (sym e))
name-injective (link_last_clicked_at c) (link_cache d) e =
    absurd (cache-ne-last_clicked d c (sym e))
name-injective (link_last_clicked_at c) (link_last_clicked_at d) e =
    ap link_last_clicked_at (unfold link_last_clicked_at_key in append_cancel_left _ c d e)

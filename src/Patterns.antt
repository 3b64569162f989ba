-- ===== src/Patterns.antt =====
-- bin/cpplint.py, `Match`, `ReplaceAll`, `Search` and `_regexp_compile_cache`: the cache of compiled
-- patterns as a state that is passed on. The other modules call `re_match` and `re_search`, the same
-- functions with no cache.

use power_judge.Prelude.{
  Bool, true, false, Option, none, some, List, [], ◌∷◌, String, ◌≡◌, refl, arith, if◌then◌else◌,
}
use power_judge.Text.{Text, text_eq}
use power_judge.Text.Laws.{text_eq_iff}
use power_judge.Regex.Syntax.{Regex}
use power_judge.Regex.Parse.{compile, re}
use power_judge.Regex.Scan.{Match, match_start, search, sub, IsFirstMatch, search-FirstMatch}

abbrev pub Cache : Type 0
Cache = List (Text × Regex)

-- cache.get(pattern)
pub cached : Text → Cache → Option Regex
unfolding text_eq
cached p [] = none
cached p ((q, r) ∷ c) = if text_eq q p then some r else cached p c

remember : Text → Option Regex → Cache → Regex × Cache
remember p (some r) c = (r, c)
remember p none c = (compile p, (p, compile p) ∷ c)

-- The two lines that `Match`, `ReplaceAll` and `Search` begin with.
pub compiled : Text → Cache → Regex × Cache
unfolding cached remember
compiled p c = remember p (cached p c) c

pub match : Text → Text → Cache → Option Match × Cache
match pattern s c = let (r, c') = compiled pattern c in (match_start r s, c')

pub replace_all : Text → (Match → Text) → Text → Cache → Text × Cache
replace_all pattern rep s c = let (r, c') = compiled pattern c in (sub r rep s, c')

pub search_cached : Text → Text → Cache → Option Match × Cache
search_cached pattern s c = let (r, c') = compiled pattern c in (search r s, c')

unfoldable pub re_match : String → Text → Option Match
re_match p s = match_start (re p) s

unfoldable pub re_search : String → Text → Option Match
re_search p s = search (re p) s

abbrev pub is_some {ℓ} : {A : Type ℓ} → Option A → Bool
is_some none = false
is_some (some _) = true

-- Whether a pattern matches at the start, or anywhere.
unfoldable pub matches : String → Text → Bool
unfolding re_match
matches p s = is_some (re_match p s)

unfoldable pub searches : String → Text → Bool
unfolding re_search
searches p s = is_some (re_search p s)

-- Every entry of the cache is the compiled form of its pattern.
pub record IsCoherent (c : Cache) : Type 0 where
  pub at : (p : Text) (r : Regex) → cached p c ≡ some r → r ≡ compile p

pub empty-IsCoherent : IsCoherent []
unfolding cached
empty-IsCoherent = record { at = λ p r h. absurd (cc) }

remember-IsCoherent :
    (p : Text) (o : Option Regex) (c : Cache)
    → cached p c ≡ o
    → IsCoherent c
    → ((remember p o c).0 ≡ compile p) × IsCoherent (remember p o c).1
unfolding remember cached
remember-IsCoherent p (some r) c e h = (h.at p r e, h)
remember-IsCoherent p none c e h =
    (refl, record { at = λ q r f. ground (arith, text_eq_iff p q, h.at q r) })

compiled-IsCoherent :
    (p : Text) (c : Cache)
    → IsCoherent c
    → ((compiled p c).0 ≡ compile p) × IsCoherent (compiled p c).1
unfolding compiled
compiled-IsCoherent p c h = remember-IsCoherent p (cached p c) c refl h

-- From a coherent cache, `Match`, `Search` and `ReplaceAll` each give what the compiled pattern gives
-- without a cache, and leave a coherent cache.
pub cache_transparent :
    (p s : Text) (rep : Match → Text) (c : Cache)
    → IsCoherent c
    → ((match p s c).0 ≡ match_start (compile p) s)
      × ((search_cached p s c).0 ≡ search (compile p) s)
      × ((replace_all p rep s c).0 ≡ sub (compile p) rep s)
      × IsCoherent (match p s c).1
      × IsCoherent (search_cached p s c).1
      × IsCoherent (replace_all p rep s c).1
unfolding match search_cached replace_all
cache_transparent p s rep c h =
    let (e, k) = compiled-IsCoherent p c h in (rw e, rw e, rw e, k, k, k)

-- From a coherent cache, `Search` finds a match at the leftmost index at which the meaning of the
-- pattern has one, and finds nothing only if there is no such index.
pub search_cached-FirstMatch :
    (p s : Text) (c : Cache) → IsCoherent c → IsFirstMatch (compile p) s (search_cached p s c).0
unfolding search_cached
search_cached-FirstMatch p s c h =
    rw (compiled-IsCoherent p c h).0 (search-FirstMatch (compile p) s)

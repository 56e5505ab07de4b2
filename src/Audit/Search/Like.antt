-- ===== src/Audit/Search/Like.antt =====
-- The prefix filter of src/audit/repository.rs.
use mayfly_server.Prelude.{
  ◌≡◌, refl, Str, [], ◌∷◌, ◌++◌, Bool, true, false, ◌&&◌, ◌==◌, any, arith, to_ascii_lowercase,
}
use mayfly_server.Audit.Search.{like, like_escape, tails}

-- The text begins with the prefix, up to the case of ASCII letters.
unfoldable pub begins : Str → Str → Bool
begins [] s = true
begins (p ∷ prefix) [] = false
begins (p ∷ prefix) (c ∷ s) = to_ascii_lowercase p == to_ascii_lowercase c && begins prefix s

any_tail : (s : Str) → any (like []) (tails s) ≡ true
unfolding like
any_tail [] = refl
any_tail (c ∷ s) = ground (arith, any_tail s)

-- The prefix filter finds exactly the event types that begin with the given text, whatever
-- wildcards and escape characters it holds, but up to the case of ASCII letters.
pub like-like_escape : (prefix s : Str) → like (like_escape prefix ++ b'%' ∷ []) s ≡ begins prefix s
unfolding like like_escape begins
like-like_escape [] s = any_tail s
like-like_escape (p ∷ prefix) [] = ground arith
like-like_escape (p ∷ prefix) (c ∷ s) = ground (arith, like-like_escape prefix s)

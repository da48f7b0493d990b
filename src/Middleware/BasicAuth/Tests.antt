-- ===== src/Middleware/BasicAuth/Tests.antt =====
-- Tests of the basic authentication, and the theorems at concrete inputs. Texts are ASCII here.
use Prim.Native.Char.{code}
use Prim.Native.String
use hypern.Prelude.Map
use hypern.Prelude.Options.{◌>>=◌}
use hypern.Prelude.Text.{codes, strip_prefix, split_once}
use hypern.Middleware.Context.{
  MiddlewareContext, continue, response, get, new_context, get_header, set_authenticated,
}
use hypern.Middleware.BasicAuth.{
  BasicAuthMiddleware, new, add_user, decode_basic_auth, challenge, check_credentials, execute,
}
use hypern.Middleware.BasicAuth.Base64.{
  alphabet, position, trim_end_matches, absorb, decode_all, base64_decode,
}
use hypern.Middleware.BasicAuth.Sextets.{symbol}
use hypern.Middleware.BasicAuth.RoundTrip.{base64_decode-encode}
use hypern.Middleware.BasicAuth.Access.{execute-encode}
use hypern.Prelude.{
  ℕ, String, ◌≡◌, refl, ◌≢◌, ◌⊎◌, Option, none, some, List, [], ◌∷◌, arith, eqb, if◌then◌else◌,
  string_eq, nat_eq,
}

auth : Unit {0}
unfolding alphabet position trim_end_matches absorb decode_all base64_decode decode_basic_auth
    check_credentials execute get_header set_authenticated Map.insert Map.lookup strip_prefix
    split_once symbol add_user
auth = tt

abbrev find : ℕ → String → Option String
find n String.[] = none
find n (String.◌∷◌ c s) =
    let rest = find n s in if eqb (code c) n then some (String.◌∷◌ c String.[]) else rest

-- `String::from_utf8` on letters, digits and the colon
abbrev from_ascii : List ℕ → Option String
from_ascii [] = some ""
from_ascii (b ∷ bs) = do
  c ← find b "abcdefghijklmnopqrstuvwxyz0123456789:"
  s ← from_ascii bs
  some (String.◌++◌ c s)

decode_test : base64_decode (codes "YWxpY2U6c2VjcmV0") ≡ some (codes "alice:secret")
unfolding auth
decode_test = refl

bad_character_test : base64_decode (codes "YWx*") ≡ none
unfolding auth
bad_character_test = refl

-- Bits that stand for no byte are not looked at, nor is the length of the input.
loose_test :
    (base64_decode (codes "YR=") ≡ some (codes "a")) × (base64_decode (codes "Y") ≡ some [])
unfolding auth
loose_test = (refl, refl)

base64_decode-encode_example : base64_decode (codes "YWI=") ≡ some (codes "ab")
unfolding auth
base64_decode-encode_example = base64_decode-encode (codes "ab") 1 (omega arith, (omega arith, tt))

abbrev mw : BasicAuthMiddleware
mw = add_user "al" "pw" (new "site")

abbrev request : MiddlewareContext
request = new_context "/" get (("authorization", "Basic YWw6cHc=") ∷ []) "" none "r"

abbrev same_text : String → String
same_text s = s

execute-encode_example :
    ((Map.lookup "al" mw.credentials ≡ some "pw")
      × (execute same_text codes from_ascii mw request
          ≡ (continue, set_authenticated "al" [] request)))
    ⊎ ((Map.lookup "al" mw.credentials ≢ some "pw")
        × (execute same_text codes from_ascii mw request
            ≡ (response (challenge "Invalid credentials" "site"), request)))
unfolding auth
execute-encode_example =
    execute-encode same_text codes from_ascii mw request "al" "pw" "YWw6cHc=" 1 (refl, (refl, tt))
      (omega arith, (omega arith, (omega arith, (omega arith, (omega arith, tt))))) refl refl refl

-- ===== src/Http/Method.antt =====
-- src/http/method.rs, `HttpMethod::from_str` and `from_bytes`. `to_ascii_uppercase` is a parameter.
use hypern.Middleware.Context.{HttpMethod}
use hypern.Middleware.Cors.{as_str}
use hypern.Prelude.{String, ◌≡◌, refl, Option, none, some, if◌then◌else◌, ◌==◌, string_eq, nat_eq}

-- The match on the name as it stands, also `from_bytes`.
abbrev pub from_bytes : String → Option HttpMethod
from_bytes s =
    if s == "GET"
    then some HttpMethod.get
    else if s == "POST"
    then some HttpMethod.post
    else if s == "PUT"
    then some HttpMethod.put
    else if s == "DELETE"
    then some HttpMethod.delete
    else if s == "PATCH"
    then some HttpMethod.patch
    else if s == "HEAD"
    then some HttpMethod.head
    else if s == "OPTIONS"
    then some HttpMethod.options
    else if s == "CONNECT"
    then some HttpMethod.connect
    else if s == "TRACE"
    then some HttpMethod.trace
    else none

abbrev or_later : Option HttpMethod → Option HttpMethod → Option HttpMethod
or_later (some m) later = some m
or_later none later = later

unfoldable pub from_str : (String → String) → String → Option HttpMethod
from_str to_ascii_uppercase s = or_later (from_bytes s) (from_bytes (to_ascii_uppercase s))

-- A method is read back from its name.
pub from_str-as_str :
    (to_ascii_uppercase : String → String) (m : HttpMethod)
    → from_str to_ascii_uppercase (as_str m) ≡ some m
unfolding from_str
from_str-as_str up HttpMethod.get = refl
from_str-as_str up HttpMethod.post = refl
from_str-as_str up HttpMethod.put = refl
from_str-as_str up HttpMethod.delete = refl
from_str-as_str up HttpMethod.patch = refl
from_str-as_str up HttpMethod.head = refl
from_str-as_str up HttpMethod.options = refl
from_str-as_str up HttpMethod.connect = refl
from_str-as_str up HttpMethod.trace = refl

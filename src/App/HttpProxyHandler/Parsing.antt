-- ===== src/App/HttpProxyHandler/Parsing.antt =====
-- app/http_proxy_handler.cpp: what is read out of a request, and the Host line that is replaced.
use my_net_core_proxy.Prelude.{
  ℕ, ◌+◌, ◌-◌, ◌≤◌, ◌≡◌, ◌≢◌, refl, sym, ◌∙◌, ap, true, Option, none, some, List, [], ◌∷◌, ◌++◌,
  append_assoc, length, take, drop, length-append, length-take, get_elem?, drop-append_length,
  take-append_length, leb, le→leb, arith,
}
use my_net_core_proxy.Prelude.Slices.{slice}
use my_net_core_proxy.Prelude.Text.{
  find, find_first, shift, find-bounds, find_first-take, find_first-absent, find_first-inside,
  find_first-replaced,
}
use my_net_core_proxy.App.HttpProxyHandler.{
  crlf, colon_space, host_key, up_to, parse_header, parse_path, replace, modify_request_for_backend,
}

-- A character that does not stand in a text.
abbrev pub Absent : ℕ → List ℕ → Type 0
Absent c s = (i : ℕ) → get_elem? s i ≢ some c

pub find_start : (p s : List ℕ) → find p s 0 ≡ find_first p s
unfolding find shift
find_start p s = rw (le→leb 0 (length s) (omega arith)) (by_case (find_first p s))
  where
    by_case : (o : Option ℕ) → shift 0 o ≡ o
    by_case none = refl
    by_case (some i) = ground arith

pub find_behind :
    (p front s : List ℕ) (start : ℕ)
    → start ≡ length front
    → find p (front ++ s) start ≡ shift start (find_first p s)
unfolding find
find_behind p front s start e =
    let inside : leb start (length (front ++ s)) ≡ true =
      le→leb start (length (front ++ s)) (omega (arith, length-append front s)) in
    let behind : drop start (front ++ s) ≡ s =
      ap (λ k. drop k (front ++ s)) e ∙ drop-append_length front s in
    rw (inside, behind) refl

up_to_found :
    (p req : List ℕ) (start end : ℕ)
    → find p req start ≡ some end
    → up_to p req start ≡ slice req start (end - start)
unfolding up_to
up_to_found p req start end e = rw (e, up_to) refl

parse_path_found :
    (req : List ℕ) (first_space : ℕ)
    → find (b' ' ∷ []) req 0 ≡ some first_space
    → parse_path req ≡ up_to (b' ' ∷ []) req (first_space + 1)
unfolding parse_path
parse_path_found req first_space e = rw (e, parse_path) refl

parse_header_found :
    (req key : List ℕ) (at : ℕ)
    → find (key ++ colon_space) req 0 ≡ some at
    → parse_header req key ≡ up_to crlf req (at + length key + 2)
unfolding parse_header
parse_header_found req key at e = rw (e, parse_header) refl

-- The text from `start` on, up to a mark whose first character does not stand in it.
up_to_lem :
    (p : ℕ) (ps front text rest : List ℕ) (start : ℕ)
    → start ≡ length front
    → Absent p text
    → up_to (p ∷ ps) (front ++ (text ++ (p ∷ ps ++ rest))) start ≡ text
unfolding shift
up_to_lem p ps front text rest start e h =
    let found : find (p ∷ ps) (front ++ (text ++ (p ∷ ps ++ rest))) start
        ≡ some (start + length text) =
      find_behind (p ∷ ps) front (text ++ (p ∷ ps ++ rest)) start e
      ∙ ap (shift start) (find_first-absent p ps text rest h) in
    let behind : drop start (front ++ (text ++ (p ∷ ps ++ rest))) ≡ text ++ (p ∷ ps ++ rest) =
      ap (λ k. drop k (front ++ (text ++ (p ∷ ps ++ rest)))) e ∙ drop-append_length front _ in
    let n : start + length text - start ≡ length text = omega arith in
    up_to_found (p ∷ ps) (front ++ (text ++ (p ∷ ps ++ rest))) start (start + length text) found
    ∙ rw (behind, n) (take-append_length text (p ∷ ps ++ rest))

-- parsePath of a text that starts with a method, a space, a path and a space, where method and
-- path have no space, is the path.
pub parse_path_lem :
    (method path rest : List ℕ)
    → Absent b' ' method
    → Absent b' ' path
    → parse_path (method ++ (b' ' ∷ (path ++ (b' ' ∷ rest)))) ≡ path
parse_path_lem method path rest hm hp =
    let found : find (b' ' ∷ []) (method ++ (b' ' ∷ (path ++ (b' ' ∷ rest)))) 0
        ≡ some (length method) =
      find_start (b' ' ∷ []) (method ++ (b' ' ∷ (path ++ (b' ' ∷ rest))))
      ∙ find_first-absent b' ' [] method (path ++ (b' ' ∷ rest)) hm in
    parse_path_found (method ++ (b' ' ∷ (path ++ (b' ' ∷ rest)))) (length method) found
    ∙ rw (sym (append_assoc method (b' ' ∷ []) (path ++ (b' ' ∷ rest)))) (
        up_to_lem b' ' [] (method ++ b' ' ∷ []) path rest (length method + 1)
          (omega (arith, length-append method (b' ' ∷ []))) hp)

-- parseHeader returns the text without carriage returns that stands between the first place of
-- the key with ": ", wherever that is, and the end of line behind it.
pub parse_header_lem :
    (front key text rest : List ℕ)
    → find_first (key ++ colon_space) (front ++ (key ++ (colon_space ++ (text ++ (crlf ++ rest)))))
      ≡ some (length front)
    → Absent 13 text
    → parse_header (front ++ (key ++ (colon_space ++ (text ++ (crlf ++ rest))))) key ≡ text
parse_header_lem front key text rest first h =
    let found =
      find_start (key ++ colon_space) (front ++ (key ++ (colon_space ++ (text ++ (crlf ++ rest)))))
      ∙ first in
    let together : front ++ (key ++ (colon_space ++ (text ++ (crlf ++ rest))))
        ≡ (front ++ (key ++ colon_space)) ++ (text ++ (crlf ++ rest)) =
      ap (λ l. front ++ l) (sym (append_assoc key colon_space (text ++ (crlf ++ rest))))
      ∙ sym (append_assoc front (key ++ colon_space) (text ++ (crlf ++ rest))) in
    parse_header_found (front ++ (key ++ (colon_space ++ (text ++ (crlf ++ rest))))) key
      (length front) found
    ∙ ap (λ l. up_to crlf l (length front + length key + 2)) together
    ∙ (up_to_lem 13 (10 ∷ []) (front ++ (key ++ colon_space)) text rest
        (length front + length key + 2)
        (omega (arith, length-append front (key ++ colon_space), length-append key colon_space)) h)

modify_found :
    (request backend_addr : List ℕ) (at eol : ℕ)
    → find (host_key ++ colon_space) request 0 ≡ some at
    → find crlf request at ≡ some eol
    → modify_request_for_backend request backend_addr
      ≡ replace request at (eol - at + 2) (host_key ++ (colon_space ++ (backend_addr ++ crlf)))
unfolding modify_request_for_backend
modify_found request backend_addr at eol e f = rw (e, f, modify_request_for_backend) refl

-- Where the request holds "Host: " and an end of line behind its first place, and the backend's
-- address has no carriage return: modifyRequestForBackend puts "Host: ", the address and an end
-- of line in place of the text from there up to that end, the rest of the request stays, and
-- parseHeader reads the address back.
pub modify_request_for_backend_lem :
    (request backend_addr : List ℕ) (at eol : ℕ)
    → find (host_key ++ colon_space) request 0 ≡ some at
    → find crlf request at ≡ some eol
    → Absent 13 backend_addr
    → (modify_request_for_backend request backend_addr
        ≡ take at request
          ++ (host_key ++ (colon_space ++ (backend_addr ++ (crlf ++ drop (eol + 2) request)))))
      × (parse_header (modify_request_for_backend request backend_addr) host_key ≡ backend_addr)
unfolding replace
modify_request_for_backend_lem request backend_addr at eol e f h =
    let (behind, _) = find-bounds crlf request at eol f in
    let first : find_first (host_key ++ colon_space) request ≡ some at =
      sym (find_start (host_key ++ colon_space) request) ∙ e in
    let inside : at + 6 ≤ length request =
      find_first-inside (host_key ++ colon_space) request at first in
    let n : at + (eol - at + 2) ≡ eol + 2 = omega arith in
    let rest : List ℕ = drop (eol + 2) request in
    let made : modify_request_for_backend request backend_addr
        ≡ take at request ++ (host_key ++ (colon_space ++ (backend_addr ++ (crlf ++ rest)))) =
      modify_found request backend_addr at eol e f
      ∙ rw (n, append_assoc backend_addr crlf rest) refl in
    let again : find_first (host_key ++ colon_space)
          (take at request ++ (host_key ++ (colon_space ++ (backend_addr ++ (crlf ++ rest)))))
        ≡ some (length (take at request)) =
      ap (λ l. find_first (host_key ++ colon_space) l)
        (sym (
          ap (λ l. l ++ (backend_addr ++ (crlf ++ rest)))
            (find_first-take (host_key ++ colon_space) request at first)
          ∙ append_assoc (take at request) (host_key ++ colon_space)
              (backend_addr ++ (crlf ++ rest))))
      ∙ find_first-replaced (host_key ++ colon_space) request (backend_addr ++ (crlf ++ rest)) at
          first
      ∙ ap some (omega (arith, length-take at request)) in
    (
      made,
      ap (λ l. parse_header l host_key) made
          ∙ parse_header_lem (take at request) host_key backend_addr rest again h,
    )

-- ===== src/Status/Page.antt =====
-- Respond and ServeLoop of Server/src/StatusServer.cpp: one request and its answer.
use crossover.Prelude.{
  ℕ, Bool, true, false, List, [], ◌∷◌, length, Option, none, some, ◌==◌, ◌&&◌, if◌then◌else◌,
}
use crossover.Tunnel.Client.{send_all}
use crossover.Status.Json.{Printers, written}

-- GET /health
abbrev pub get_health : List ℕ
get_health = 71 ∷ 69 ∷ 84 ∷ 32 ∷ 47 ∷ 104 ∷ 101 ∷ 97 ∷ 108 ∷ 116 ∷ 104 ∷ []

-- GET
abbrev pub get : List ℕ
get = 71 ∷ 69 ∷ 84 ∷ 32 ∷ []

-- 200 OK
abbrev pub ok_status : List ℕ
ok_status = 50 ∷ 48 ∷ 48 ∷ 32 ∷ 79 ∷ 75 ∷ []

-- 405 Method Not Allowed
abbrev pub not_allowed : List ℕ
not_allowed =
    52 ∷ 48 ∷ 53 ∷ 32 ∷ 77 ∷ 101 ∷ 116 ∷ 104 ∷ 111 ∷ 100 ∷ 32 ∷ 78 ∷ 111 ∷ 116 ∷ 32 ∷ 65 ∷ 108 ∷ 108
    ∷ 111 ∷ 119 ∷ 101 ∷ 100 ∷ []

-- text/plain
abbrev pub text_plain : List ℕ
text_plain = 116 ∷ 101 ∷ 120 ∷ 116 ∷ 47 ∷ 112 ∷ 108 ∷ 97 ∷ 105 ∷ 110 ∷ []

-- application/json
abbrev pub application_json : List ℕ
application_json =
    97 ∷ 112 ∷ 112 ∷ 108 ∷ 105 ∷ 99 ∷ 97 ∷ 116 ∷ 105 ∷ 111 ∷ 110 ∷ 47 ∷ 106 ∷ 115 ∷ 111 ∷ 110 ∷ []

-- ok
abbrev pub ok_body : List ℕ
ok_body = 111 ∷ 107 ∷ []

-- HTTP/1.1
abbrev pub http_version : List ℕ
http_version = 72 ∷ 84 ∷ 84 ∷ 80 ∷ 47 ∷ 49 ∷ 46 ∷ 49 ∷ 32 ∷ []

-- \r\nContent-Type:
abbrev pub content_type_key : List ℕ
content_type_key =
    13 ∷ 10 ∷ 67 ∷ 111 ∷ 110 ∷ 116 ∷ 101 ∷ 110 ∷ 116 ∷ 45 ∷ 84 ∷ 121 ∷ 112 ∷ 101 ∷ 58 ∷ 32 ∷ []

-- \r\nContent-Length:
abbrev pub content_length_key : List ℕ
content_length_key =
    13 ∷ 10 ∷ 67 ∷ 111 ∷ 110 ∷ 116 ∷ 101 ∷ 110 ∷ 116 ∷ 45 ∷ 76 ∷ 101 ∷ 110 ∷ 103 ∷ 116 ∷ 104 ∷ 58
    ∷ 32 ∷ []

-- \r\nCache-Control: no-store\r\nConnection: close\r\n\r\n
abbrev pub head_end : List ℕ
head_end =
    13 ∷ 10 ∷ 67 ∷ 97 ∷ 99 ∷ 104 ∷ 101 ∷ 45 ∷ 67 ∷ 111 ∷ 110 ∷ 116 ∷ 114 ∷ 111 ∷ 108 ∷ 58 ∷ 32 ∷ 110
    ∷ 111 ∷ 45 ∷ 115 ∷ 116 ∷ 111 ∷ 114 ∷ 101 ∷ 13 ∷ 10 ∷ 67 ∷ 111 ∷ 110 ∷ 110 ∷ 101 ∷ 99 ∷ 116 ∷ 105
    ∷ 111 ∷ 110 ∷ 58 ∷ 32 ∷ 99 ∷ 108 ∷ 111 ∷ 115 ∷ 101 ∷ 13 ∷ 10 ∷ 13 ∷ 10 ∷ []

pub record Response : Type 0 where
  pub status : List ℕ
  pub content_type : List ℕ
  pub body : List ℕ

-- request.rfind(prefix, 0) == 0
unfoldable pub starts_with : List ℕ → List ℕ → Bool
starts_with [] cs = true
starts_with (p ∷ ps) [] = false
starts_with (p ∷ ps) (c ∷ cs) = p == c && starts_with ps cs

-- std::string of the buffer, which is filled with zeros: up to the first of them.
unfoldable pub c_string : List ℕ → List ℕ
c_string [] = []
c_string (c ∷ cs) = if c == 0 then [] else c ∷ c_string cs

-- What recv put into the buffer, or `none` if nothing came in two seconds.
abbrev pub request_of : Option (List ℕ) → List ℕ
request_of none = []
request_of (some bytes) = c_string bytes

-- `page` is what the provider returns.
unfoldable pub route : List ℕ → List ℕ → Response
route page request =
    if starts_with get_health request
    then record { status = ok_status; content_type = text_plain; body = ok_body }
    else if starts_with get request
    then record { status = ok_status; content_type = application_json; body = page }
    else record { status = not_allowed; content_type = text_plain; body = [] }

unfoldable pub response_text : Printers → Response → List ℕ
response_text pr r = written (
    http_version
    ∷ r.status
    ∷ content_type_key
    ∷ r.content_type
    ∷ content_length_key
    ∷ pr.show_int (length r.body)
    ∷ head_end
    ∷ r.body
    ∷ [])

-- What Respond sends, for the results of its sends: it stops at the first that fails.
unfoldable pub respond : Printers → Response → List ℕ → List ℕ
respond pr r sends = (send_all (response_text pr r) sends).0

-- One round of ServeLoop, behind accept.
unfoldable pub serve : Printers → List ℕ → Option (List ℕ) → List ℕ → List ℕ
serve pr page received sends = respond pr (route page (request_of received)) sends

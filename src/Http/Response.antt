-- ===== src/Http/Response.antt =====
-- httpkit/response.go: the helpers that write a JSON response. `jsonutil.Marshal` and
-- `http.StatusText` are parameters.
use gopher_core.Common.{ℕ, ◌≡◌, refl, List, [], ◌∷◌, String, Option, some, none}
use gopher_core.Http.{Write, set_header, write_header, write, sent_header, sent_status}

pub record ErrorResponse : Type 0 where
  pub error : String
  pub code : ℕ
  pub message : String

abbrev json_type : Write
json_type = set_header "Content-Type" "application/json; charset=utf-8"

-- The writes of `JSON` for what `Marshal` makes of the data, none for an error
unfoldable pub json_body : ℕ → Option String → List Write
json_body status none =
    json_type ∷ write_header 500 ∷ write "{\"error\":\"internal server error\",\"code\":500}" ∷ []
json_body status (some body) = json_type ∷ write_header status ∷ write body ∷ []

module _ {D : Type 0} (marshal : D → Option String) where
  -- `JSON`
  unfoldable pub json : ℕ → D → List Write
  unfolding json_body
  json status data_ = json_body status (marshal data_)

  -- `Ok`
  unfoldable pub ok_json : D → List Write
  unfolding json
  ok_json data_ = json 200 data_

  unfoldable pub created : D → List Write
  unfolding json
  created data_ = json 201 data_

-- `Error`
unfoldable pub error_json : (ErrorResponse → Option String) → (ℕ → String) → ℕ → String → List Write
unfolding json
error_json marshal status_text status message =
    json marshal status (record { error = status_text status; code = status; message = message })

unfoldable pub no_content : List Write
no_content = write_header 204 ∷ []

-- The status that goes out for a body, none for data that cannot be encoded
abbrev pub status_for : ℕ → Option String → ℕ
status_for status none = 500
status_for status (some body) = status

json_body-status :
    (status : ℕ) (o : Option String) → sent_status (json_body status o) ≡ status_for status o
unfolding json_body sent_status
json_body-status status none = refl
json_body-status status (some body) = refl

json_body-type :
    (status : ℕ) (o : Option String)
    → sent_header "Content-Type" none (json_body status o) ≡ some "application/json; charset=utf-8"
unfolding json_body sent_header
json_body-type status none = refl
json_body-type status (some body) = refl

-- `JSON` sends the status it is given if the data can be encoded, and 500 if not, and in both cases the
-- JSON content type.
pub json_sends :
    {D : Type 0} (marshal : D → Option String) (status : ℕ) (data_ : D)
    → (sent_status (json marshal status data_) ≡ status_for status (marshal data_))
      × (sent_header "Content-Type" none (json marshal status data_)
          ≡ some "application/json; charset=utf-8")
unfolding json
json_sends marshal status data_ =
    (json_body-status status (marshal data_), json_body-type status (marshal data_))

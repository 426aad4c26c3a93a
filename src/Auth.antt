-- ===== src/Auth.antt =====
-- web/src/hooks/useAuth.tsx and web/src/pages/Login.tsx: the session of the page, and the login form.
use sentry_usb.Base.{
  Bool, true, false, not, ◌||◌, Option, none, some, List, ◌∷◌, String, if◌then◌else◌,
}
use sentry_usb.Base.Text.{trim, is_empty}

pub data AuthState : Type 0 where
  loading authenticated unauthenticated : AuthState

pub record Auth : Type 0 where
  pub state : AuthState
  pub auth_required : Bool

unfoldable pub mount : Auth
mount = record { state = loading; auth_required = false }

-- the reply of a check: whether a login is required, and whether there is one
pub record Check : Type 0 where
  pub auth_required : Bool
  pub authenticated : Bool

-- `checkAuth` (`none`: the request failed)
unfoldable pub check_auth : Option Check → Auth → Auth
check_auth none s = record s { state = authenticated }
check_auth (some c) s = record s {
  auth_required = c.auth_required;
  state = if c.authenticated || not c.auth_required then authenticated else unauthenticated;
}

-- What a request to log in comes to: it is accepted, refused with a text that may be empty, or fails.
pub data LoginReply : Type 0 where
  accepted unreachable : LoginReply
  refused : Option String → LoginReply

abbrev or_text : Option String → String → String
or_text none text = text
or_text (some e) text = if is_empty e then text else e

-- `login`: the text of the error, if there is one
unfoldable pub login : LoginReply → Auth → Option String × Auth
login accepted s = (none, record s { state = authenticated })
login unreachable s = (some "Connection failed. Please try again.", s)
login (refused e) s = (some (or_text e "Invalid username or password"), s)

unfoldable pub logout : Auth → Auth
logout s = record s { state = unauthenticated }

-- The login form; `attempts` has the names that were sent, the latest first.
pub record Login : Type 0 where
  pub username : String
  pub password : String
  pub is_loading : Bool
  pub error : String
  pub attempts : List String

unfoldable pub submit_begin : Login → Login
unfolding trim
submit_begin s =
    if is_empty (trim s.username) || is_empty s.password
    then s
    else record s { is_loading = true; error = ""; attempts = trim s.username ∷ s.attempts }

-- A login that is accepted leaves the form loading: the page takes its place.
unfoldable pub submit_end : Option String → Login → Login
submit_end none s = s
submit_end (some e) s = if is_empty e then s else record s { error = e; is_loading = false }

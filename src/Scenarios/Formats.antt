-- ===== src/Scenarios/Formats.antt =====
-- A text form of values, which stands for JSON in runs of internal/pkg/internet/route_state.go.
use sigmo.Common.{
  ℕ, zero, suc, Bool, true, false, ◌≡◌, refl, List, [], ◌∷◌, ◌++◌, Option, none, some, Text, length,
  take, drop, Result, ok, err, ok-injective, take-append_left, drop-append_left,
}
use sigmo.Internet.Profile.{Preferences}
use sigmo.Storage.{Codec}
use sigmo.Storage.Cells.{CodecLaws}
use sigmo.Internet.RouteState.{AddrText, RouteStateRoute, RouteStateChange, RawRouteState}
use sigmo.Internet.RouteState.RoundTrip.{AddrTextLaws}
use sigmo.Internet.ConnectionState.{ProxyStateEntry}

-- Texts that hold a value each, and what follows.
pub record Format (A : Type 0) : Type 0 where
  pub write : A → Text → Text
  pub read : Text → Option (A × Text)
  pub read_write : (a : A) (rest : Text) → read (write a rest) ≡ some (a, rest)

abbrev pub number : Format ℕ
number = record {
  write = λ n rest. n ∷ rest;
  read = λ t. elim t [ [] ↦ none | n ∷ rest ↦ some (n, rest) ];
  read_write = λ n rest. refl;
}

abbrev pub read_text : Text → Option (Text × Text)
read_text [] = none
read_text (n ∷ t) = some (take n t, drop n t)

abbrev pub text : Format Text
text = record {
  write = λ s rest. length s ∷ (s ++ rest);
  read = read_text;
  read_write = λ s rest. rw (take-append_left s rest, drop-append_left s rest) refl;
}

followed_by : {A B : Type 0} → Option (A × Text) → (A → Text → Option B) → Option B
followed_by none f = none
followed_by (some (a, t)) f = f a t

module _ {A B : Type 0} (F : Format A) (G : Format B) where
  abbrev pair : Format (A × B)
  pair = record {
    write = λ p rest. F.write p.0 (G.write p.1 rest);
    read = λ t. followed_by (F.read t) (λ a u. followed_by (G.read u) (λ b v. some ((a, b), v)));
    read_write = λ p rest.
        unfold followed_by in rw (F.read_write p.0 (G.write p.1 rest), G.read_write p.1 rest) refl;
  }

module _ {A B : Type 0} (G : Format B) where
  -- The form of a record is that of the tuple of its fields.
  abbrev through : (to : A → B) (from : B → A) → ((a : A) → from (to a) ≡ a) → Format A
  through to from back = record {
    write = λ a rest. G.write (to a) rest;
    read = λ t. followed_by (G.read t) (λ b u. some (from b, u));
    read_write = λ a rest. unfold followed_by in rw (G.read_write (to a) rest, back a) refl;
  }

module _ {A : Type 0} (F : Format A) where
  pub write_each : List A → Text → Text
  write_each [] rest = rest
  write_each (a ∷ as') rest = F.write a (write_each as' rest)

  pub read_each : ℕ → Text → Option (List A × Text)
  unfolding followed_by
  read_each zero t = some ([], t)
  read_each (suc n) t =
      followed_by (F.read t) (λ a u. followed_by (read_each n u) (λ as' v. some (a ∷ as', v)))

  read_list : Text → Option (List A × Text)
  read_list [] = none
  read_list (n ∷ t) = read_each n t

  pub read_each_back :
      (as' : List A) (rest : Text) → read_each (length as') (write_each as' rest) ≡ some (as', rest)
  unfolding read_each write_each
  read_each_back [] rest = refl
  read_each_back (a ∷ as') rest =
      rw (F.read_write a (write_each as' rest), read_each_back as' rest) refl

  abbrev list : Format (List A)
  list = record {
    write = λ as' rest. length as' ∷ write_each as' rest;
    read = read_list;
    read_write = λ as' rest. unfold read_list in read_each_back as' rest;
  }

abbrev RouteFields : Type 0
RouteFields = Text × (ℕ × (ℕ × (ℕ × (Text × (Text × ℕ)))))

abbrev route : Format RouteStateRoute
route =
    through (pair text (pair number (pair number (pair number (pair text (pair text number))))))
      (λ r. (r.interface, (r.family, (r.protocol, (r.scope, (r.gateway, (r.source, r.metric)))))))
      (λ p. record {
        interface = p.0;
        family = p.1.0;
        protocol = p.1.1.0;
        scope = p.1.1.1.0;
        gateway = p.1.1.1.1.0;
        source = p.1.1.1.1.1.0;
        metric = p.1.1.1.1.1.1;
      })
      (λ r. refl)

abbrev change : Format RouteStateChange
change =
    through (pair route route) (λ c. (c.original, c.replacement))
      (λ p. record { original = p.0; replacement = p.1 }) (λ c. refl)

abbrev raw : Format RawRouteState
raw =
    through (pair text (pair (list route) (list change))) (λ r. (r.modem, (r.preferred, r.changes)))
      (λ p. record { modem = p.0; preferred = p.1.0; changes = p.1.1 }) (λ r. refl)

first_of : {A : Type 0} → Option (A × Text) → Result ℕ A
first_of none = err 0
first_of (some (a, t)) = ok a

unfoldable pub raw_codec : Codec RawRouteState
unfolding first_of read_list read_each write_each followed_by
raw_codec = record { marshal = λ r. ok (raw.write r []); unmarshal = λ t. first_of (raw.read t) }

pub raw_laws : CodecLaws raw_codec
unfolding raw_codec
raw_laws = record {
  decodes = λ r h. rw (← ok-injective h, raw.read_write r []) (unfold first_of in refl);
}

unfoldable pub proxy_codec : Codec ProxyStateEntry
proxy_codec = record { marshal = λ e. ok e.modem; unmarshal = λ t. ok (record { modem = t }) }

pub proxy_laws : CodecLaws proxy_codec
unfolding proxy_codec
proxy_laws = record { decodes = λ e h. rw (← ok-injective h) refl }

read_addr : Text → Result ℕ Text
read_addr [] = err 0
read_addr (c ∷ a) = ok a

-- An address is shown by its bytes, after a mark.
unfoldable pub marked : AddrText
unfolding read_addr
marked = record { show_addr = λ a. 1 ∷ a; parse_addr = read_addr }

pub marked_laws : AddrTextLaws marked
unfolding marked read_addr
marked_laws = record { shown_text = λ a h e. cc; parses = λ a h. refl }

abbrev read_flag : Text → Option (Bool × Text)
read_flag [] = none
read_flag (zero ∷ rest) = some (false, rest)
read_flag (suc n ∷ rest) = some (true, rest)

abbrev pub write_flag : Bool → Text → Text
write_flag true rest = 1 ∷ rest
write_flag false rest = 0 ∷ rest

pub read_flag_back : (b : Bool) (rest : Text) → read_flag (write_flag b rest) ≡ some (b, rest)
read_flag_back true rest = refl
read_flag_back false rest = refl

abbrev flag : Format Bool
flag = record { write = write_flag; read = read_flag; read_write = read_flag_back }

abbrev preferences : Format Preferences
preferences =
    through (pair text (pair text (pair text (pair text (pair text (pair flag (pair flag flag)))))))
      (λ p. (
        p.apn,
        (
          p.ip_type,
          (
            p.apn_username,
            (p.apn_password, (p.apn_auth, (p.default_route, (p.proxy_enabled, p.always_on)))),
          ),
        ),
      ))
      (λ q. record {
        apn = q.0;
        ip_type = q.1.0;
        apn_username = q.1.1.0;
        apn_password = q.1.1.1.0;
        apn_auth = q.1.1.1.1.0;
        default_route = q.1.1.1.1.1.0;
        proxy_enabled = q.1.1.1.1.1.1.0;
        always_on = q.1.1.1.1.1.1.1;
      })
      (λ p. refl)

unfoldable pub preferences_codec : Codec Preferences
unfolding first_of followed_by
preferences_codec = record {
  marshal = λ p. ok (preferences.write p []);
  unmarshal = λ t. first_of (preferences.read t);
}

pub preferences_laws : CodecLaws preferences_codec
unfolding preferences_codec
preferences_laws = record {
  decodes = λ p h. rw (← ok-injective h, preferences.read_write p []) (unfold first_of in refl);
}

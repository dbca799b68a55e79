-- ===== src/Connection/Settings.antt =====
-- The connection string of buildPoolConfig hands every setting to its reader as it stands.
use Prim.Native.String.{String}
use secarch_tickets.Base.Int.{ℤ}
use secarch_tickets.Base.{
  ◌++◌, ◌≡◌, refl, ap, ◌∙◌, true, Text, codes, List, [], ◌∷◌, some, nat_eq, if◌then◌else◌, is_empty,
  join, all,
}
use secarch_tickets.Connection.{
  Config, quote_value, format_int, optional_param, build_params, connection_string,
}
use secarch_tickets.Connection.Values.{
  is_key_char, IsReadAs, IsValueOf-IsReadAs, quoted-IsValueOf, format_int-IsValueOf,
}
use secarch_tickets.Connection.Reading.{Settings, prepend, read_settings}

-- The settings that a configuration stands for.
abbrev pub optional_setting : String → Text → Settings
optional_setting key v = if is_empty v then [] else (codes key, v) ∷ []

abbrev pub settings_of : Config → Settings
settings_of cfg =
    (codes "host", join cfg.servers (codes ","))
      ∷ (codes "port", format_int cfg.port)
      ∷ (codes "user", cfg.user)
      ∷ (codes "dbname", cfg.db_name)
      ∷ (codes "sslmode", cfg.ssl_mode)
      ∷ (codes "target_session_attrs", cfg.target_session_attrs)
      ∷ (codes "connect_timeout", format_int cfg.connect_timeout_seconds)
      ∷ optional_setting "sslcert" cfg.ssl_cert
    ++ (optional_setting "sslkey" cfg.ssl_key ++ optional_setting "sslrootcert" cfg.ssl_root_cert)

-- The parameters of a list are read as the settings of another, one by one.
data Reads : List Text → Settings → Type 0 where
  nothing : Reads [] []
  one_more :
      {t : Text} {setting : Text × Text} {ts : List Text} {settings : Settings}
      → IsReadAs t setting
      → Reads ts settings
      → Reads (t ∷ ts) (setting ∷ settings)

Reads-append :
    {ts us : List Text} {as_read more : Settings}
    → Reads ts as_read
    → Reads us more
    → Reads (ts ++ us) (as_read ++ more)
Reads-append nothing m = m
Reads-append (one_more t r) m = one_more t (Reads-append r m)

Reads-join :
    (ts : List Text) (settings : Settings)
    → Reads ts settings
    → read_settings (join ts (codes " ")) ≡ some settings
Reads-join [] _ nothing = refl
Reads-join (t ∷ []) _ (one_more h nothing) = (h []).1
Reads-join (t ∷ u ∷ ts) [] h = elim h [ ]
Reads-join (t ∷ u ∷ ts) (s ∷ settings) (one_more h r) =
    (h (join (u ∷ ts) (codes " "))).0 ∙ ap (prepend (s ∷ [])) (Reads-join (u ∷ ts) settings r)

quoted-IsReadAs :
    (k v : Text) → all is_key_char k ≡ true → IsReadAs (k ++ (b'=' ∷ quote_value v)) (k, v)
quoted-IsReadAs k v h = IsValueOf-IsReadAs k (quote_value v) v h (quoted-IsValueOf k v)

number-IsReadAs :
    (k : Text) (i : ℤ)
    → all is_key_char k ≡ true
    → IsReadAs (k ++ (b'=' ∷ format_int i)) (k, format_int i)
number-IsReadAs k i h =
    IsValueOf-IsReadAs k (format_int i) (format_int i) h (format_int-IsValueOf k i)

sslcert-Reads : (v : Text) → Reads (optional_param "sslcert=" v) (optional_setting "sslcert" v)
sslcert-Reads [] = nothing
sslcert-Reads (c ∷ v) = one_more (quoted-IsReadAs (codes "sslcert") (c ∷ v) refl) nothing

sslkey-Reads : (v : Text) → Reads (optional_param "sslkey=" v) (optional_setting "sslkey" v)
sslkey-Reads [] = nothing
sslkey-Reads (c ∷ v) = one_more (quoted-IsReadAs (codes "sslkey") (c ∷ v) refl) nothing

sslrootcert-Reads :
    (v : Text) → Reads (optional_param "sslrootcert=" v) (optional_setting "sslrootcert" v)
sslrootcert-Reads [] = nothing
sslrootcert-Reads (c ∷ v) = one_more (quoted-IsReadAs (codes "sslrootcert") (c ∷ v) refl) nothing

build_params-Reads : (cfg : Config) → Reads (build_params cfg) (settings_of cfg)
unfolding build_params
build_params-Reads cfg =
    one_more (quoted-IsReadAs (codes "host") (join cfg.servers (codes ",")) refl) (
      one_more (number-IsReadAs (codes "port") cfg.port refl) (
        one_more (quoted-IsReadAs (codes "user") cfg.user refl) (
          one_more (quoted-IsReadAs (codes "dbname") cfg.db_name refl) (
            one_more (quoted-IsReadAs (codes "sslmode") cfg.ssl_mode refl) (
              one_more
                (quoted-IsReadAs (codes "target_session_attrs") cfg.target_session_attrs refl)
                (one_more
                  (number-IsReadAs (codes "connect_timeout") cfg.connect_timeout_seconds refl)
                  (Reads-append (sslcert-Reads cfg.ssl_cert) (
                    Reads-append (sslkey-Reads cfg.ssl_key)
                      (sslrootcert-Reads cfg.ssl_root_cert)))))))))

-- What a string says in PostgreSQL's format is what was configured: every setting is read back as it
-- stands, whatever characters its value has, and no value adds another setting.
pub read_settings-connection_string :
    (cfg : Config) → read_settings (connection_string cfg) ≡ some (settings_of cfg)
unfolding connection_string
read_settings-connection_string cfg =
    Reads-join (build_params cfg) (settings_of cfg) (build_params-Reads cfg)

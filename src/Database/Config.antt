-- ===== src/Database/Config.antt =====
-- src/DbConfig.cpp: the database's settings in config.json.
use match_engine.Prelude.{
  ◌<>◌, ℕ, ◌<◌, ◌^◌, ◌≡◌, refl, ap, sym, ◌∙◌, String, Option, none, some, List, inl,
}
use match_engine.Prelude.Int.{pos}
use match_engine.Prelude.Result.{Result, ok, err, std_error, ◌>>=◌}
use match_engine.Json.{Json, IsJson, object_of, last_of, get-object_of}
use match_engine.Serialization.Orders.{string_at}
use match_engine.Database.Connection.{DbConfig}

module _ (J : Type 0) ⦃j : Json J⦄ where
  read_root : J → Result DbConfig
  read_root root = do
    host ← j.get "database" root >>= string_at "host"
    port ← j.get "database" root >>= j.get "port" >>= j.as_int
    user ← j.get "database" root >>= string_at "user"
    password ← j.get "database" root >>= string_at "password"
    database ← j.get "database" root >>= string_at "database"
    ok (record { host = host; port = port; user = user; password = password; database = database })

  parsed : Option J → Result DbConfig
  unfolding read_root
  parsed none = err (std_error "Failed to parse configuration file: ")
  parsed (some root) = read_root root

  -- `content` is the text of the file, or `none` where it cannot be opened. The parser's own message,
  -- which the source puts behind the last error, is left out.
  unfoldable pub read_config : (config_file : String) → (content : Option String) → Result DbConfig
  unfolding parsed
  read_config config_file none = err (std_error ("Could not open config file: " <> config_file))
  read_config config_file (some text) = parsed (j.parse text)

-- A list of assignments that gives the five settings, among others maybe, and in any order.
pub record IsSettings {J : Type 0} ⦃j : Json J⦄ (c : DbConfig) (port : ℕ)
    (fields : List (String × J)) : Type 0 where
  pub host : last_of "host" fields ≡ some (j.of_string c.host)
  pub port_at : last_of "port" fields ≡ some (j.of_uint port)
  pub user : last_of "user" fields ≡ some (j.of_string c.user)
  pub password : last_of "password" fields ≡ some (j.of_string c.password)
  pub database : last_of "database" fields ≡ some (j.of_string c.database)
  pub port_is : c.port ≡ pos port
  pub port_fits : port < 2 ^ 31

module _ {J : Type 0} ⦃j : Json J⦄ (laws : IsJson J) where
  got :
      (fields : List (String × J)) (k : String) (v : J)
      → last_of k fields ≡ some v
      → j.get k (object_of j.null fields) ≡ ok v
  got fields k v e = get-object_of laws k j.null fields (inl refl) ∙ rw e refl

  string_got :
      (fields : List (String × J)) (k text : String)
      → last_of k fields ≡ some (j.of_string text)
      → string_at k (object_of j.null fields) ≡ ok text
  string_got fields k text e = rw (got fields k (j.of_string text) e) (laws.as_string_of text)

  -- If jsoncpp keeps its laws: a file whose text is parsed as an object, which has under "database" an
  -- object with the five settings, whose port is a number that fits an `int`, is read as these settings.
  -- How the text is laid out, the order of the keys and what else there is do not matter.
  pub read_config_text :
      (config_file text : String) (c : DbConfig) (port : ℕ) (top fields : List (String × J))
      → j.parse text ≡ some (object_of j.null top)
      → last_of "database" top ≡ some (object_of j.null fields)
      → IsSettings c port fields
      → read_config J config_file (some text) ≡ ok c
  unfolding read_config parsed read_root
  read_config_text config_file text c port top fields e inside s =
      let read : read_root J (object_of j.null top)
          ≡ ok (record {
            host = c.host;
            port = pos port;
            user = c.user;
            password = c.password;
            database = c.database;
          }) =
        rw
          (
            got top "database" (object_of j.null fields) inside,
            string_got fields "host" c.host s.host,
            got fields "port" (j.of_uint port) s.port_at,
            laws.as_int_of port s.port_fits,
            string_got fields "user" c.user s.user,
            string_got fields "password" c.password s.password,
            string_got fields "database" c.database s.database,
          )
          refl in
      ap (parsed J) e ∙ read ∙ ap (λ p. ok (record c { port = p })) (sym s.port_is)

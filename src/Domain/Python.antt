-- ===== src/Domain/Python.antt =====
-- The parts of Python's standard library that the domain models call and that are pure functions
-- of their arguments: urllib.parse.urlsplit, uuid.UUID, ipaddress.ip_address,
-- int, os.path, pathlib and shlex.
use remote_ai_bridge.Prelude.{ℕ, String, Bool, Option}

-- What `urlsplit(value)` and its properties show; an absent part is "".
pub record SplitUrl : Type 0 where
  pub scheme : String
  pub hostname : String
  pub username : String
  pub password : String
  pub query : String
  pub fragment : String
  pub port : Option ℕ

pub record Python : Type 0 where
  -- `none` where `urlsplit` or `.port` raises ValueError
  pub urlsplit : String → Option SplitUrl
  -- `str(uuid.UUID(text))`, or `none` where it raises
  pub canonical_uuid : String → Option String
  -- `ip_address(text)` returns
  pub is_ip : String → Bool
  -- `int(text)` where it is a natural number; a negative one, which the program refuses too, is `none`
  pub parse_int : String → Option ℕ
  -- `base64.b64decode(text.encode("ascii"), validate=True)` returns
  pub is_base64 : String → Bool
  -- `os.path.normcase(os.path.abspath(path))`
  pub normalise_path : String → String
  -- `path < other` for the files of two profiles, by their names
  pub path_before : String → String → Bool
  -- `shlex.quote(text)`
  pub quote : String → String
  -- `str(Path(folder) / name)`
  pub join : String → String → String

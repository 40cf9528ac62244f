-- ===== src/Client/Logging.antt =====
-- class Logger (modernopc/include/modernopc/Logger.h), which hands the messages of open62541 to a
-- logger of spdlog. The registry of spdlog is a parameter.
use modern_opc.Base.{
  ℕ, zero, suc, ◌≡◌, refl, sym, ap, inl, inr, Option-cases, >>=-eq-ok, ◌∙◌, ◌≤◌, Option, none, some,
  Bytes, [], ◌∷◌, arith, length, Outcome, ok, ◌>>=◌,
}

-- UA_LogLevel, and the levels that class Logger uses of spdlog
pub data UaLogLevel : Type 0 where
  ua_trace ua_debug ua_info ua_warning ua_error ua_fatal : UaLogLevel

pub data SpdLevel : Type 0 where
  trace debug info warn err : SpdLevel

-- spdlog::get, the construction of a logger with a sink for the console, set_level, and
-- register_logger, over the state of spdlog. A logger is known by its address.
pub record SpdLog (R : Type 0) : Type 0 where
  pub get : R → Bytes → Option ℕ
  pub make : R → Bytes → ℕ × R
  pub set_level : R → ℕ → SpdLevel → R
  pub register_logger : R → Bytes → ℕ → Outcome R

-- An object of the class
pub record Logger : Type 0 where
  pub spdlogger : ℕ
  pub name : Bytes

-- What a message becomes: the level and the text that spdlog gets
pub record Message : Type 0 where
  pub logger : ℕ
  pub level : SpdLevel
  pub text : Bytes

-- vsnprintf(buf, 512, msg, args), given what the whole message would be: at most 511 bytes of it
unfoldable pub take_bytes : ℕ → Bytes → Bytes
take_bytes zero s = []
take_bytes (suc n) [] = []
take_bytes (suc n) (c ∷ s) = c ∷ take_bytes n s

-- The switch of Logger::log
unfoldable pub spd_level : UaLogLevel → SpdLevel
spd_level ua_debug = debug
spd_level ua_info = info
spd_level ua_error = err
spd_level ua_fatal = err
spd_level ua_trace = trace
spd_level ua_warning = warn

-- Logger::log, whose context is the address of the logger
unfoldable pub log : ℕ → UaLogLevel → Bytes → Message
unfolding take_bytes spd_level
log context level msg = record {
  logger = context;
  level = spd_level level;
  text = take_bytes 511 msg;
}

-- Logger::getUALogger: the context and the function, which is `log`
unfoldable pub get_ua_logger : Logger → ℕ × (ℕ → UaLogLevel → Bytes → Message)
unfolding log
get_ua_logger l = (l.spdlogger, log)

module _ {R : Type 0} (spd : SpdLog R) where
  -- Logger::Logger
  unfoldable pub construct_logger : Bytes → R → Outcome (Logger × R)
  construct_logger name r = elim (spd.get r name) [
    | some l ↦ ok (record { spdlogger = l; name = name }, r)
    | none ↦
        let (l, made) = spd.make r name in
        spd.register_logger (spd.set_level made l debug) name l
        >>= (λ registered. ok (record { spdlogger = l; name = name }, registered))
  ]

  -- A registered logger is found under its name.
  pub record Registers : Type 0 where
    pub get-register_logger :
        (r r' : R) (name : Bytes) (l : ℕ)
        → spd.register_logger r name l ≡ ok r'
        → spd.get r' name ≡ some l

  construct_logger_found :
      (name : Bytes) (r : R) (x : ℕ)
      → spd.get r name ≡ some x
      → construct_logger name r ≡ ok (record { spdlogger = x; name = name }, r)
  unfolding construct_logger
  construct_logger_found name r x e = rw (e, construct_logger) refl

  abbrev registered : Bytes → R → Outcome R
  registered name r =
      spd.register_logger (spd.set_level (spd.make r name).1 (spd.make r name).0 debug) name
        (spd.make r name).0

  construct_logger_new :
      (name : Bytes) (r : R)
      → spd.get r name ≡ none
      → construct_logger name r ≡ (
          registered name r
          >>= (λ s. ok (record { spdlogger = (spd.make r name).0; name = name }, s)))
  unfolding construct_logger
  construct_logger_new name r e = rw (e, construct_logger) refl

  -- A second Logger of one name shares the logger of the first and changes nothing in spdlog.
  pub construct_logger_again :
      (name : Bytes) (r r' : R) (l : Logger)
      → Registers
      → construct_logger name r ≡ ok (l, r')
      → construct_logger name r' ≡ ok (l, r')
  construct_logger_again name r r' l g e = elim (Option-cases (spd.get r name)) [
    | inl n ↦
        let (s, f, h) = >>=-eq-ok (registered name r) _ (sym (construct_logger_new name r n) ∙ e) in
        let made : Logger = record { spdlogger = (spd.make r name).0; name = name } in
        let same_l : made ≡ l = cc h in
        let same_r : s ≡ r' = cc h in
        again (spd.make r name).0 same_l (
          ap (λ t. spd.get t name) (sym same_r)
          ∙ g.get-register_logger (spd.set_level (spd.make r name).1 (spd.make r name).0 debug) s
              name (spd.make r name).0 f)
    | inr (x, h) ↦
        let both = sym (construct_logger_found name r x h) ∙ e in
        let found : Logger = record { spdlogger = x; name = name } in
        let same_l : found ≡ l = cc both in
        let same_r : r ≡ r' = cc both in again x same_l (ap (λ t. spd.get t name) (sym same_r) ∙ h)
  ]
    where
      again :
          (x : ℕ)
          → record { spdlogger = x; name = name } ≡ l
          → spd.get r' name ≡ some x
          → construct_logger name r' ≡ ok (l, r')
      again x same h = construct_logger_found name r' x h ∙ ap (λ (k : Logger). ok (k, r')) same

length-take_bytes : (n : ℕ) (s : Bytes) → length (take_bytes n s) ≤ n
unfolding take_bytes
length-take_bytes zero s = omega arith
length-take_bytes (suc n) [] = omega arith
length-take_bytes (suc n) (c ∷ s) = omega (arith, length-take_bytes n s)

-- No message is longer than the buffer, less the NUL at its end.
pub length-log :
    (context : ℕ) (level : UaLogLevel) (msg : Bytes) → length (log context level msg).text ≤ 511
unfolding log
length-log context level msg = length-take_bytes 511 msg

-- ===== src/Logger.antt =====
-- The logger of the service: src/utils/json-logger.ts.
pub mod Levels
use media_service.Base.{
  ℕ, Bool, true, false, ◌||◌, Option, none, some, List, [], ◌∷◌, Text, codes, text_eq, includes,
  to_lower_case, get_or_else, leb, if◌then◌else◌,
}

-- `LogLevel`
pub data LogLevel : Type 0 where
  verbose debug log warn error fatal : LogLevel

-- `LEVEL_ORDER`
unfoldable pub level_order : LogLevel → ℕ
level_order LogLevel.verbose = 0
level_order LogLevel.debug = 1
level_order LogLevel.log = 2
level_order LogLevel.warn = 3
level_order LogLevel.error = 4
level_order LogLevel.fatal = 5

-- `LEVEL_ORDER[name]`, of a name that the object has itself.
unfoldable pub level_named : Text → Option LogLevel
level_named s =
    if text_eq s (codes "verbose")
    then some LogLevel.verbose
    else if text_eq s (codes "debug")
    then some LogLevel.debug
    else if text_eq s (codes "log")
    then some LogLevel.log
    else if text_eq s (codes "warn")
    then some LogLevel.warn
    else if text_eq s (codes "error")
    then some LogLevel.error
    else if text_eq s (codes "fatal")
    then some LogLevel.fatal
    else none

-- The names that `in` finds in an object literal although it was not given them, as far as
-- `toLowerCase` leaves them what they are.
abbrev pub inherited_names : List Text
inherited_names = codes "constructor" ∷ codes "__proto__" ∷ []

-- `minLevel`: a level, or an inherited name, which compares with no number.
pub data MinLevel : Type 0 where
  level : LogLevel → MinLevel
  inherited : MinLevel

-- `parseLevel`
unfoldable pub level_or_log : Text → Option LogLevel → MinLevel
level_or_log s (some l) = MinLevel.level l
level_or_log s none =
    if includes inherited_names s then MinLevel.inherited else MinLevel.level LogLevel.log

unfoldable pub parse_level : Option Text → MinLevel
unfolding level_or_log
parse_level value =
    let normalized = to_lower_case (get_or_else value (codes "log")) in
    level_or_log normalized (level_named normalized)

-- `shouldEmit`
unfoldable pub should_emit : MinLevel → LogLevel → Bool
should_emit (MinLevel.level min) l = leb (level_order min) (level_order l)
should_emit MinLevel.inherited l = false

-- The line, without the time and the ids of the process and the logger.
pub record Payload : Type 0 where
  pub level : LogLevel
  pub service : Text
  pub context : Text
  pub message : Text
  pub trace : Option Text

pub data Stream : Type 0 where
  stdout stderr : Stream

unfoldable pub stream_of : LogLevel → Stream
stream_of LogLevel.verbose = Stream.stdout
stream_of LogLevel.debug = Stream.stdout
stream_of LogLevel.log = Stream.stdout
stream_of LogLevel.warn = Stream.stderr
stream_of LogLevel.error = Stream.stderr
stream_of LogLevel.fatal = Stream.stderr

-- `emit`; the message is what `stringifyMessage` makes of it.
unfoldable pub emit :
    Text → MinLevel → LogLevel → Text → Option Text → Option Text → Option (Stream × Payload)
emit service min l message context trace =
    if should_emit min l
    then some (
      stream_of l,
      record {
        level = l;
        service = service;
        context = get_or_else context service;
        message = message;
        trace = trace;
      },
    )
    else none

-- `log`, `warn`, `debug`, `verbose` and `fatal`
unfoldable pub write : Text → MinLevel → LogLevel → Text → Option Text → Option (Stream × Payload)
write service min l message context = emit service min l message context none

-- `error`, which takes a trace too.
unfoldable pub write_error :
    Text → MinLevel → Text → Option Text → Option Text → Option (Stream × Payload)
write_error service min message trace context =
    emit service min LogLevel.error message context trace

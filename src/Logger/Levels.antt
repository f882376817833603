-- ===== src/Logger/Levels.antt =====
-- Which lines are written, by the configured level.
use media_service.Base.{
  ◌≤◌, ◌≡◌, ◌↔◌, inl, inr, refl, sym, ap, ◌∙◌, true, false, Option, none, some, Text, codes,
  text_eq, includes, to_lower_case, get_or_else, arith, Bool-cases, is_some, includes_iff,
}
use media_service.Logger.{
  LogLevel, MinLevel, level_order, level_named, level_or_log, inherited_names, parse_level,
  should_emit, emit,
}

emitted :
    (service message : Text) (context trace : Option Text) (min : MinLevel) (l : LogLevel)
    → is_some (emit service min l message context trace) ≡ should_emit min l
unfolding emit
emitted service message context trace min l = elim (Bool-cases (should_emit min l)) [
  | inl written ↦ rw written
  | inr dropped ↦ rw dropped
]

should_emit-higher :
    (min : MinLevel) (l h : LogLevel)
    → level_order l ≤ level_order h
    → should_emit min l ≡ true
    → should_emit min h ≡ true
unfolding should_emit
should_emit-higher (MinLevel.level min) l h b e = ground arith
should_emit-higher MinLevel.inherited l h b e = cc

fatal_is_highest : (l : LogLevel) → should_emit (MinLevel.level l) LogLevel.fatal ≡ true
unfolding should_emit level_order
fatal_is_highest LogLevel.verbose = refl
fatal_is_highest LogLevel.debug = refl
fatal_is_highest LogLevel.log = refl
fatal_is_highest LogLevel.warn = refl
fatal_is_highest LogLevel.error = refl
fatal_is_highest LogLevel.fatal = refl

-- An inherited name is that of no level.
inherited_is_no_level : (s : Text) → includes inherited_names s ≡ true → level_named s ≡ none
unfolding level_named text_eq
inherited_is_no_level s h = elim ((includes_iff inherited_names s).0 h) [
  | inl e ↦ ap level_named (sym e)
  | inr (inl e) ↦ ap level_named (sym e)
  | inr (inr e) ↦ absurd e
]

fatal_iff :
    (s : Text)
    → (should_emit (level_or_log s (level_named s)) LogLevel.fatal ≡ true)
      ↔ (includes inherited_names s ≡ false)
unfolding level_or_log should_emit
fatal_iff s = elim (Bool-cases (includes inherited_names s)) [
  | inl inherited ↦ rw (inherited_is_no_level s inherited, inherited) (λ h. cc, λ h. cc)
  | inr own ↦ rw own (λ h. refl, λ h. by_level (level_named s) own)
]
  where
    by_level :
        (o : Option LogLevel)
        → includes inherited_names s ≡ false
        → should_emit (level_or_log s o) LogLevel.fatal ≡ true
    by_level none own = rw own (fatal_is_highest LogLevel.log)
    by_level (some l) own = fatal_is_highest l

-- Whatever LOG_LEVEL says, a level is written if a lower one is; and a fatal error is written unless
-- the text, in lower case, is `constructor` or `__proto__`, for which nothing is ever written.
pub emit_iff :
    (service message : Text) (context trace : Option Text) (value : Option Text)
    → let min = parse_level value in
      ((l h : LogLevel)
        → level_order l ≤ level_order h
        → is_some (emit service min l message context trace) ≡ true
        → is_some (emit service min h message context trace) ≡ true)
      × ((is_some (emit service min LogLevel.fatal message context trace) ≡ true)
          ↔ (includes inherited_names (to_lower_case (get_or_else value (codes "log"))) ≡ false))
unfolding parse_level
emit_iff service message context trace value =
    let min = parse_level value in
    let normalized = to_lower_case (get_or_else value (codes "log")) in
    let written = λ (l : LogLevel). emitted service message context trace min l in
    (
      λ l h b e. written h ∙ should_emit-higher min l h b (sym (written l) ∙ e),
      (
        λ e. (fatal_iff normalized).0 (sym (written LogLevel.fatal) ∙ e),
        λ e. written LogLevel.fatal ∙ (fatal_iff normalized).1 e,
      ),
    )

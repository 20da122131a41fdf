-- ===== src/Logging/Specialized/Tests.antt =====
-- An instance of each theorem on the loggers with a file of their own.
use xm_sigma.Common.{◌≡◌, refl, none, some, List, [], ◌∷◌, true, false}
use xm_sigma.Logging.Level.{SpdlogLevel}
use xm_sigma.Logging.Rows.{Text}
use xm_sigma.Logging.Rows.Split.{split}
use xm_sigma.Logging.Spdlog.Keeping.{keeping, keeping-IsSpdlog, knows_name, sys}
use xm_sigma.Logging.Specialized.{
  SpecializedLogger, construct, log_info, log_warn, log_fatal, log_data,
}
use xm_sigma.Logging.Specialized.Taken.{Open, messages_verbatim, same_second_throws}

nothing_known : (name : Text) → knows_name [] name ≡ false
unfolding knows_name
nothing_known name = refl

same_second_throws_example :
    (s : SpecializedLogger keeping) × (registry' : List Text) × (construct keeping true sys 0x31
        (0x61 ∷ [])
        (0x2f ∷ 0x62 ∷ [])
        []
      ≡ some (s, registry'))
    × Open keeping s []
    × (construct keeping true sys 0x31 (0x61 ∷ []) (0x2f ∷ 0x62 ∷ []) registry' ≡ none)
same_second_throws_example =
    same_second_throws keeping keeping-IsSpdlog sys 0x31 (0x61 ∷ []) (0x2f ∷ 0x62 ∷ []) [] 1
      (nothing_known _) refl

abbrev opened : SpecializedLogger keeping
opened = record {
  logger = some (record { threshold = SpdlogLevel.info; queue = []; to_sinks = 1 ∷ [] });
  logfile_prefix = 0x61 ∷ [];
  logfile_path = 0x2f ∷ 0x62 ∷ [];
}

opened-Open : Open keeping opened []
opened-Open = record { logger = _; logger_is = refl; level_is = refl; queue_is = refl }

-- The message "{x}" and the values "1" and "".
messages_verbatim_example :
    ((s' : SpecializedLogger keeping) × (log_info keeping true (0x7b ∷ 0x78 ∷ 0x7d ∷ []) opened
        ≡ some s')
      × Open keeping s' ((SpdlogLevel.info, 0x7b ∷ 0x78 ∷ 0x7d ∷ []) ∷ []))
    × ((s' : SpecializedLogger keeping) × (log_warn keeping true (0x7b ∷ 0x78 ∷ 0x7d ∷ []) opened
          ≡ some s')
        × Open keeping s' ((SpdlogLevel.warn, 0x7b ∷ 0x78 ∷ 0x7d ∷ []) ∷ []))
    × ((s' : SpecializedLogger keeping) × (log_fatal keeping true (0x7b ∷ 0x78 ∷ 0x7d ∷ []) opened
          ≡ some s')
        × Open keeping s' ((SpdlogLevel.critical, 0x7b ∷ 0x78 ∷ 0x7d ∷ []) ∷ []))
    × ((s' : SpecializedLogger keeping) × (row : Text) × (log_data keeping true
            ((0x31 ∷ []) ∷ [] ∷ [])
            opened
          ≡ some s')
        × Open keeping s' ((SpdlogLevel.info, row) ∷ [])
        × (split row ≡ (0x31 ∷ []) ∷ [] ∷ []))
messages_verbatim_example =
    messages_verbatim keeping keeping-IsSpdlog (0x7b ∷ 0x78 ∷ 0x7d ∷ []) (0x31 ∷ []) ([] ∷ [])
      opened [] opened-Open ((refl, tt), (tt, tt))

-- ===== src/ProductMatch/Vocabulary.antt =====
-- The vocabulary of retrieval/product_match.py. A set is a list of its elements; the order of
-- `_BRAND_PHRASES` and `_FAMILY_TOKENS` is the order of their literals.
use torque_finder.Prelude.{String, List, [], ◌∷◌}

abbrev pub in_corpus_brands : List String
in_corpus_brands = "rockshox" ∷ "sram" ∷ "avid" ∷ "zipp" ∷ "quarq" ∷ []

abbrev pub out_of_corpus_brands : List String
out_of_corpus_brands =
    "shimano" ∷ "fox" ∷ "campagnolo" ∷ "magura" ∷ "hope" ∷ "crankbrothers" ∷ "trp" ∷ "box" ∷ "hayes"
    ∷ "tektro" ∷ "formula" ∷ "praxis" ∷ "easton" ∷ "enve" ∷ "industry-nine" ∷ "onyx" ∷ "wolftooth"
    ∷ "wolf-tooth" ∷ []

abbrev pub generic_title_tokens : List String
generic_title_tokens =
    "technical" ∷ "front" ∷ "suspension" ∷ "spare" ∷ "part" ∷ "catalog" ∷ "road" ∷ "frame" ∷ "fit"
    ∷ "specifications" ∷ "safety" ∷ "instructions" ∷ "user" ∷ "udh" ∷ "hose" ∷ "bleed" ∷ "procedure"
    ∷ "adjustment" ∷ []

abbrev pub guide_product_variants : List String
guide_product_variants = "rs" ∷ "rsc" ∷ "re" ∷ "r" ∷ "t" ∷ "ultimate" ∷ []

abbrev pub guide_genre_context : List String
guide_genre_context = "tuning" ∷ "theory" ∷ "service" ∷ "identification" ∷ "start" ∷ "quick" ∷ []

abbrev pub brand_phrases : List (String × String)
brand_phrases =
    ("dt swiss", "dt-swiss")
    ∷ ("race face", "race-face")
    ∷ ("chris king", "chris-king")
    ∷ ("cane creek", "cane-creek")
    ∷ ("wolf tooth", "wolf-tooth")
    ∷ []

abbrev pub family_tokens : List (String × List String)
family_tokens =
    ("pike", "pike" ∷ [])
    ∷ ("lyrik", "lyrik" ∷ [])
    ∷ ("zeb", "zeb" ∷ [])
    ∷ ("yari", "yari" ∷ [])
    ∷ ("sid", "sid" ∷ [])
    ∷ ("sidluxe", "sidluxe" ∷ [])
    ∷ ("revelation", "revelation" ∷ [])
    ∷ ("reba", "reba" ∷ [])
    ∷ ("recon", "recon" ∷ [])
    ∷ ("sektor", "sektor" ∷ [])
    ∷ ("domain", "domain" ∷ [])
    ∷ ("boxxer", "boxxer" ∷ [])
    ∷ ("judy", "judy" ∷ [])
    ∷ ("tora", "tora" ∷ [])
    ∷ ("argyle", "argyle" ∷ [])
    ∷ ("dart", "dart" ∷ [])
    ∷ ("bluto", "bluto" ∷ [])
    ∷ ("vivid", "vivid" ∷ [])
    ∷ ("monarch", "monarch" ∷ [])
    ∷ ("deluxe", "deluxe" ∷ [])
    ∷ ("kage", "kage" ∷ [])
    ∷ ("reverb", "reverb" ∷ [])
    ∷ ("code", "code" ∷ [])
    ∷ ("guide", "guide" ∷ [])
    ∷ ("level", "level" ∷ [])
    ∷ ("bb7", "bb7" ∷ [])
    ∷ ("db", "db5" ∷ "db8" ∷ [])
    ∷ ("reaktiv", "reaktiv" ∷ [])
    ∷ ("eagle", "eagle" ∷ [])
    ∷ ("axs", "axs" ∷ [])
    ∷ ("rs1", "rs-1" ∷ "rs1" ∷ [])
    ∷ ("predictive-steering", "predictive" ∷ [])
    ∷ []

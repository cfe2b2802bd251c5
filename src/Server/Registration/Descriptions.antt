-- ===== src/Server/Registration/Descriptions.antt =====
-- internal/server: the tool descriptions, as a calling agent reads them.
use field_docket.Base.{[], ◌∷◌, ◌++◌, Bytes, codes}

-- U+2014 in UTF-8.
abbrev em_dash : Bytes
em_dash = 0xe2 ∷ 0x80 ∷ 0x94 ∷ []

-- `recordDescription`
abbrev pub record_description : Bytes
record_description =
    codes "Append one observation to the local docket.\n\n"
    ++ codes "Recording is append-only and is never refused on the basis of what the docket "
    ++ codes "already contains; only malformed input is rejected. Observations cannot be "
    ++ codes "edited or deleted once written.\n\n"
    ++ codes "Keep an observation to one sentence describing what was observed. Reuse an "
    ++ codes "existing class where one fits rather than coining a near-synonym "
    ++ em_dash
    ++ codes " classes "
    ++ codes "are how observations are grouped later, and a fragmented vocabulary makes "
    ++ codes "the docket harder to read. Call review_observations to see which classes "
    ++ codes "are already in use.\n\n"
    ++ codes "Write the observation in your own words. Do not paste credentials, tokens, or "
    ++ codes "raw error payloads: the docket is stored unencrypted and entries cannot be "
    ++ codes "removed in-band."

-- `reviewDescription`
abbrev pub review_description : Bytes
review_description =
    codes "Read recorded observations back, newest first.\n\n"
    ++ codes "All filters are optional and combine with AND. total reports the size of the "
    ++ codes "whole match and truncated says whether the page cut it short, so an "
    ++ codes "incomplete result is always distinguishable from a complete one. "
    ++ codes "class_counts tallies the entire match rather than the returned page, which "
    ++ codes "makes it usable for seeing which classes dominate and which vocabulary is "
    ++ codes "already in use.\n\n"
    ++ codes "To page backward, pass the last returned observation's recorded_at as before "
    ++ codes "AND its id as before_id. Both are needed: timestamps are not unique when "
    ++ codes "several sessions record at once, so before on its own would skip the rest "
    ++ codes "of that instant.\n\n"
    ++ codes "A long observation comes back shortened, with observation_truncated set on that "
    ++ codes "entry "
    ++ em_dash
    ++ codes " limit bounds how many observations return, not how large they are. "
    ++ codes "Timestamps are stored to millisecond resolution, so since and before are "
    ++ codes "applied at that precision."

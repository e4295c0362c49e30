-- ===== src/Modem/Constants.antt =====
-- The enumerations of internal/pkg/modem/constants.go: their names, and the masks that list several.
-- A value of 32 bits is a natural number; ModemStateFailed, which is -1, is 2 ^ 32 - 1.
pub mod Masks
pub mod Names
use sigmo.Common.{
  ℕ, zero, suc, ◌+◌, ◌-◌, ◌/◌, ◌%◌, ◌^◌, not, ◌&&◌, ◌||◌, List, [], ◌∷◌, ◌++◌, map, none, Text,
  codes, Any, ltb, leb, ◌==◌, nat_equal, list_equal, if◌then◌else◌, bit_and,
}

-- A `switch` over the named values of a type, with its default.
unfoldable pub named : List (ℕ × Text) → Text → ℕ → Text
named [] default value = default
named ((v, name) ∷ names) default value =
    let rest = named names default value in if v == value then name else rest

abbrev pub state_names : List (ℕ × Text)
state_names =
    (4294967295, codes "Failed")
    ∷ (0, codes "Unknown")
    ∷ (1, codes "Initializing")
    ∷ (2, codes "Locked")
    ∷ (3, codes "Disabled")
    ∷ (4, codes "Disabling")
    ∷ (5, codes "Enabling")
    ∷ (6, codes "Enabled")
    ∷ (7, codes "Searching")
    ∷ (8, codes "Registered")
    ∷ (9, codes "Disconnecting")
    ∷ (10, codes "Connecting")
    ∷ (11, codes "Connected")
    ∷ []

unfoldable pub state_string : ℕ → Text
unfolding named
state_string value = named state_names (codes "Unknown") value

abbrev pub lock_names : List (ℕ × Text)
lock_names =
    (1, codes "none")
    ∷ (2, codes "sim-pin")
    ∷ (3, codes "sim-pin2")
    ∷ (4, codes "sim-puk")
    ∷ (5, codes "sim-puk2")
    ∷ (6, codes "ph-sp-pin")
    ∷ (7, codes "ph-sp-puk")
    ∷ (8, codes "ph-net-pin")
    ∷ (9, codes "ph-net-puk")
    ∷ (10, codes "ph-sim-pin")
    ∷ (11, codes "ph-corp-pin")
    ∷ (12, codes "ph-corp-puk")
    ∷ (13, codes "ph-fsim-pin")
    ∷ (14, codes "ph-fsim-puk")
    ∷ (15, codes "ph-netsub-pin")
    ∷ (16, codes "ph-netsub-puk")
    ∷ []

unfoldable pub lock_string : ℕ → Text
unfolding named
lock_string value = named lock_names (codes "unknown") value

abbrev pub sms_state_names : List (ℕ × Text)
sms_state_names =
    (0, codes "Unknown")
    ∷ (1, codes "Stored")
    ∷ (2, codes "Receiving")
    ∷ (3, codes "Received")
    ∷ (4, codes "Sending")
    ∷ (5, codes "Sent")
    ∷ []

unfoldable pub sms_state_string : ℕ → Text
unfolding named
sms_state_string value = named sms_state_names (codes "Unknown") value

abbrev pub sms_storage_names : List (ℕ × Text)
sms_storage_names =
    (0, codes "unknown")
    ∷ (1, codes "sm")
    ∷ (2, codes "me")
    ∷ (3, codes "mt")
    ∷ (4, codes "sr")
    ∷ (5, codes "bm")
    ∷ (6, codes "ta")
    ∷ []

unfoldable pub sms_storage_string : ℕ → Text
unfolding named
sms_storage_string value = named sms_storage_names (codes "unknown") value

abbrev pub registration_names : List (ℕ × Text)
registration_names =
    (0, codes "Idle")
    ∷ (1, codes "Home")
    ∷ (2, codes "Searching")
    ∷ (3, codes "Denied")
    ∷ (4, codes "Unknown")
    ∷ (5, codes "Roaming")
    ∷ (6, codes "Home SMS Only")
    ∷ (7, codes "Roaming SMS Only")
    ∷ (8, codes "Emergency Only")
    ∷ (9, codes "Home CSFB Not Preferred")
    ∷ (10, codes "Roaming CSFB Not Preferred")
    ∷ []

unfoldable pub registration_string : ℕ → Text
unfolding named
registration_string value = named registration_names (codes "Undefined") value

abbrev pub technology_names : List (ℕ × Text)
technology_names =
    (0, codes "Unknown")
    ∷ (1, codes "POTS")
    ∷ (2, codes "GSM")
    ∷ (4, codes "GSM Compact")
    ∷ (8, codes "GPRS")
    ∷ (16, codes "EDGE")
    ∷ (32, codes "UMTS")
    ∷ (64, codes "HSDPA")
    ∷ (128, codes "HSUPA")
    ∷ (256, codes "HSPA")
    ∷ (512, codes "HSPA+")
    ∷ (1024, codes "CDMA2000 1xRTT")
    ∷ (2048, codes "CDMA2000 EVDO revision 0")
    ∷ (4096, codes "CDMA2000 EVDO revision A")
    ∷ (8192, codes "CDMA2000 EVDO revision B")
    ∷ (16384, codes "LTE")
    ∷ (32768, codes "5GNR")
    ∷ (65536, codes "LTE Cat-M")
    ∷ (131072, codes "LTE NB-IoT")
    ∷ (4294967295, codes "Any")
    ∷ []

unfoldable pub technology_string : ℕ → Text
unfolding named
technology_string value = named technology_names (codes "Unknown") value

abbrev pub mode_names : List (ℕ × Text)
mode_names =
    (0, codes "None")
    ∷ (1, codes "CS")
    ∷ (2, codes "2G")
    ∷ (4, codes "3G")
    ∷ (8, codes "4G")
    ∷ (16, codes "5G")
    ∷ (4294967295, codes "Any")
    ∷ []

unfoldable pub mode_string : ℕ → Text
unfolding named
mode_string value = named mode_names (codes "Unknown") value

abbrev pub availability_names : List (ℕ × Text)
availability_names =
    (0, codes "Unknown")
    ∷ (1, codes "Available")
    ∷ (2, codes "Current")
    ∷ (3, codes "Forbidden")
    ∷ []

unfoldable pub availability_string : ℕ → Text
unfolding named
availability_string value = named availability_names (codes "Undefined") value

-- `ModemAccessTechnologyAny` and `ModemModeAny`.
abbrev pub any_value : ℕ
any_value = 0xffff_ffff

-- The list `supported`, from POTS to NB-IoT.
abbrev pub supported_technologies : List ℕ
supported_technologies =
    2 ^ 0
    ∷ 2 ^ 1
    ∷ 2 ^ 2
    ∷ 2 ^ 3
    ∷ 2 ^ 4
    ∷ 2 ^ 5
    ∷ 2 ^ 6
    ∷ 2 ^ 7
    ∷ 2 ^ 8
    ∷ 2 ^ 9
    ∷ 2 ^ 10
    ∷ 2 ^ 11
    ∷ 2 ^ 12
    ∷ 2 ^ 13
    ∷ 2 ^ 14
    ∷ 2 ^ 15
    ∷ 2 ^ 16
    ∷ 2 ^ 17
    ∷ []

-- The values of a list that have a bit in common with the mask.
unfoldable pub present : ℕ → List ℕ → List ℕ
present bitmask [] = []
present bitmask (value ∷ values) =
    let rest = present bitmask values in
    if not (bit_and bitmask value == 0) then value ∷ rest else rest

-- The nil slice is the empty list.
unfoldable pub unmarshal_bitmask : ℕ → List ℕ
unfolding present
unmarshal_bitmask bitmask =
    if bitmask == 0
    then []
    else if bitmask == any_value
    then any_value ∷ []
    else present bitmask supported_technologies

abbrev pub label_modes : List ℕ
label_modes = 2 ^ 0 ∷ 2 ^ 1 ∷ 2 ^ 2 ∷ 2 ^ 3 ∷ 2 ^ 4 ∷ []

-- The parts of a label, with " + " between them.
unfoldable pub joined : List Text → Text
joined [] = codes "Unknown"
joined (part ∷ []) = part
joined (part ∷ next ∷ parts) = part ++ codes " + " ++ joined (next ∷ parts)

-- `ModemMode.Label`
unfoldable pub mode_label : ℕ → Text
unfolding present joined mode_string
mode_label mode =
    if (mode == any_value) || (mode == 0)
    then mode_string mode
    else joined (map mode_string (present mode label_modes))

-- `%d`, with a count of digits that is high enough.
decimal_digits : ℕ → ℕ → Text
decimal_digits zero n = []
decimal_digits (suc f) n =
    let rest = decimal_digits f (n / 10) in (if ltb n 10 then [] else rest) ++ (48 + n % 10) ∷ []

unfoldable pub decimal : ℕ → Text
unfolding decimal_digits
decimal n = decimal_digits (suc n) n

-- `modemBandLabels`
abbrev pub band_labels : List (ℕ × Text)
band_labels =
    (1, codes "GSM EGSM 900")
    ∷ (2, codes "GSM DCS 1800")
    ∷ (3, codes "GSM PCS 1900")
    ∷ (4, codes "GSM 850")
    ∷ (5, codes "UMTS band 1")
    ∷ (6, codes "UMTS band 3")
    ∷ (7, codes "UMTS band 4")
    ∷ (8, codes "UMTS band 6")
    ∷ (9, codes "UMTS band 5")
    ∷ (10, codes "UMTS band 8")
    ∷ (11, codes "UMTS band 9")
    ∷ (12, codes "UMTS band 2")
    ∷ (13, codes "UMTS band 7")
    ∷ (14, codes "GSM 450")
    ∷ (15, codes "GSM 480")
    ∷ (16, codes "GSM 750")
    ∷ (17, codes "GSM 380")
    ∷ (18, codes "GSM 410")
    ∷ (19, codes "GSM 710")
    ∷ (20, codes "GSM 810")
    ∷ (128, codes "CDMA BC0")
    ∷ (129, codes "CDMA BC1")
    ∷ (130, codes "CDMA BC2")
    ∷ (131, codes "CDMA BC3")
    ∷ (132, codes "CDMA BC4")
    ∷ (134, codes "CDMA BC5")
    ∷ (135, codes "CDMA BC6")
    ∷ (136, codes "CDMA BC7")
    ∷ (137, codes "CDMA BC8")
    ∷ (138, codes "CDMA BC9")
    ∷ (139, codes "CDMA BC10")
    ∷ (140, codes "CDMA BC11")
    ∷ (141, codes "CDMA BC12")
    ∷ (142, codes "CDMA BC13")
    ∷ (143, codes "CDMA BC14")
    ∷ (144, codes "CDMA BC15")
    ∷ (145, codes "CDMA BC16")
    ∷ (146, codes "CDMA BC17")
    ∷ (147, codes "CDMA BC18")
    ∷ (148, codes "CDMA BC19")
    ∷ (210, codes "UMTS band 10")
    ∷ (211, codes "UMTS band 11")
    ∷ (212, codes "UMTS band 12")
    ∷ (213, codes "UMTS band 13")
    ∷ (214, codes "UMTS band 14")
    ∷ (219, codes "UMTS band 19")
    ∷ (220, codes "UMTS band 20")
    ∷ (221, codes "UMTS band 21")
    ∷ (222, codes "UMTS band 22")
    ∷ (225, codes "UMTS band 25")
    ∷ (226, codes "UMTS band 26")
    ∷ (232, codes "UMTS band 32")
    ∷ []

-- The ranges that the table leaves out.
unfoldable pub band_range : ℕ → Text
unfolding decimal
band_range b =
    if leb 31 b && leb b 115
    then if b == 115 then codes "LTE B85" else codes "LTE B" ++ decimal (b - 30)
    else if leb 301 b && ltb b 600
    then codes "NR n" ++ decimal (b - 300)
    else codes "Band " ++ decimal b

unfoldable pub band_string : ℕ → Text
unfolding named band_range
band_string b =
    if b == 0
    then codes "Unknown"
    else if b == 256
    then codes "Any"
    else named band_labels (band_range b) b

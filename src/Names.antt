-- ===== src/Names.antt =====
-- src/lib/hackrf/hackrf.c: the names of boards and filter paths, `hackrf_board_id_name`,
-- `hackrf_usb_board_id_name` and `hackrf_filter_path_name`, and the library's own version and release.
use Prim.Native.String.{String}
use hackrf.Prelude.{ℕ, Option, none, some, ◌==◌, if◌then◌else◌}

-- A value of an enum is any number.
unfoldable pub board_id_name : ℕ → String
board_id_name board_id =
    if board_id == 0
    then "Jellybean"
    else if board_id == 1
    then "Jawbreaker"
    else if board_id == 2
    then "HackRF One"
    else if board_id == 3
    then "rad1o"
    else if board_id == 0xff
    then "Invalid Board ID"
    else "Unknown Board ID"

pub usb_board_id_name : ℕ → String
usb_board_id_name usb_board_id =
    if usb_board_id == 0x604b
    then "Jawbreaker"
    else if usb_board_id == 0x6089
    then "HackRF One"
    else if usb_board_id == 0xcc15
    then "rad1o"
    else if usb_board_id == 0xffff
    then "Invalid Board ID"
    else "Unknown Board ID"

pub filter_path_name : ℕ → String
filter_path_name path =
    if path == 0
    then "mixer bypass"
    else if path == 1
    then "low pass filter"
    else if path == 2
    then "high pass filter"
    else "invalid filter path"

-- LIBRARY_VERSION and LIBRARY_RELEASE, where the build defines them.
pub library_version : Option String → String
library_version none = "unknown"
library_version (some version) = version

pub library_release : Option String → String
library_release none = "unknown"
library_release (some release) = release

-- ===== src/Platform/Codes.antt =====
-- The numbers of the vendor requests: src/lib/hackrf/hackrf.c, `hackrf_vendor_request`.
use hackrf.Prelude.{ℕ, ◌≡◌, refl, ap, Option, none, some, List, [], ◌∷◌, get_elem?}
use hackrf.Platform.{VendorRequest}

unfoldable pub request_code : VendorRequest → ℕ
request_code VendorRequest.set_transceiver_mode = 1
request_code VendorRequest.max2837_write = 2
request_code VendorRequest.max2837_read = 3
request_code VendorRequest.si5351c_write = 4
request_code VendorRequest.si5351c_read = 5
request_code VendorRequest.sample_rate_set = 6
request_code VendorRequest.baseband_filter_bandwidth_set = 7
request_code VendorRequest.rffc5071_write = 8
request_code VendorRequest.rffc5071_read = 9
request_code VendorRequest.spiflash_erase = 10
request_code VendorRequest.spiflash_write = 11
request_code VendorRequest.spiflash_read = 12
request_code VendorRequest.board_id_read = 14
request_code VendorRequest.version_string_read = 15
request_code VendorRequest.set_freq = 16
request_code VendorRequest.amp_enable = 17
request_code VendorRequest.board_partid_serialno_read = 18
request_code VendorRequest.set_lna_gain = 19
request_code VendorRequest.set_vga_gain = 20
request_code VendorRequest.set_txvga_gain = 21
request_code VendorRequest.antenna_enable = 23
request_code VendorRequest.set_freq_explicit = 24
request_code VendorRequest.usb_wcid_vendor_req = 25
request_code VendorRequest.init_sweep = 26
request_code VendorRequest.operacake_get_boards = 27
request_code VendorRequest.operacake_set_ports = 28
request_code VendorRequest.set_hw_sync_mode = 29
request_code VendorRequest.reset = 30
request_code VendorRequest.operacake_set_ranges = 31
request_code VendorRequest.clkout_enable = 32
request_code VendorRequest.spiflash_status = 33
request_code VendorRequest.spiflash_clear_status = 34
request_code VendorRequest.operacake_gpio_test = 35
request_code VendorRequest.cpld_checksum = 36

-- The request at each number; 0, 13 and 22 are not used.
abbrev by_code : List (Option VendorRequest)
by_code =
    none
    ∷ some VendorRequest.set_transceiver_mode
    ∷ some VendorRequest.max2837_write
    ∷ some VendorRequest.max2837_read
    ∷ some VendorRequest.si5351c_write
    ∷ some VendorRequest.si5351c_read
    ∷ some VendorRequest.sample_rate_set
    ∷ some VendorRequest.baseband_filter_bandwidth_set
    ∷ some VendorRequest.rffc5071_write
    ∷ some VendorRequest.rffc5071_read
    ∷ some VendorRequest.spiflash_erase
    ∷ some VendorRequest.spiflash_write
    ∷ some VendorRequest.spiflash_read
    ∷ none
    ∷ some VendorRequest.board_id_read
    ∷ some VendorRequest.version_string_read
    ∷ some VendorRequest.set_freq
    ∷ some VendorRequest.amp_enable
    ∷ some VendorRequest.board_partid_serialno_read
    ∷ some VendorRequest.set_lna_gain
    ∷ some VendorRequest.set_vga_gain
    ∷ some VendorRequest.set_txvga_gain
    ∷ none
    ∷ some VendorRequest.antenna_enable
    ∷ some VendorRequest.set_freq_explicit
    ∷ some VendorRequest.usb_wcid_vendor_req
    ∷ some VendorRequest.init_sweep
    ∷ some VendorRequest.operacake_get_boards
    ∷ some VendorRequest.operacake_set_ports
    ∷ some VendorRequest.set_hw_sync_mode
    ∷ some VendorRequest.reset
    ∷ some VendorRequest.operacake_set_ranges
    ∷ some VendorRequest.clkout_enable
    ∷ some VendorRequest.spiflash_status
    ∷ some VendorRequest.spiflash_clear_status
    ∷ some VendorRequest.operacake_gpio_test
    ∷ some VendorRequest.cpld_checksum
    ∷ []

by_code-request_code : (r : VendorRequest) → get_elem? by_code (request_code r) ≡ some (some r)
unfolding request_code
by_code-request_code VendorRequest.set_transceiver_mode = refl
by_code-request_code _ = refl

-- No two requests have one number, so the device can tell them apart.
request_code_injective : (q r : VendorRequest) → request_code q ≡ request_code r → q ≡ r
request_code_injective q r e =
    cc (by_code-request_code q, by_code-request_code r, ap (get_elem? by_code) e)

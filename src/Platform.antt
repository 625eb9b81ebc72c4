-- ===== src/Platform.antt =====
-- What src/lib/hackrf/hackrf.c calls and does not implement: libusb, malloc and pthread.
-- Each function takes the log of all earlier calls, so a platform may answer the same call in
-- another way later. Handles, devices and transfers are numbers that the platform chooses.
pub mod Action
pub mod Codes
pub mod Handles
use hackrf.Prelude.{ℕ, Bool, Option, List}
use hackrf.Prelude.Int.{ℤ}

pub data Direction : Type 0 where
  endpoint_in endpoint_out : Direction

-- `hackrf_vendor_request`
pub data VendorRequest : Type 0 where
  set_transceiver_mode max2837_write max2837_read si5351c_write si5351c_read : VendorRequest
  sample_rate_set baseband_filter_bandwidth_set rffc5071_write rffc5071_read : VendorRequest
  spiflash_erase spiflash_write spiflash_read board_id_read version_string_read : VendorRequest
  set_freq amp_enable board_partid_serialno_read set_lna_gain set_vga_gain : VendorRequest
  set_txvga_gain antenna_enable set_freq_explicit usb_wcid_vendor_req init_sweep : VendorRequest
  operacake_get_boards operacake_set_ports set_hw_sync_mode reset : VendorRequest
  operacake_set_ranges clkout_enable spiflash_status spiflash_clear_status : VendorRequest
  operacake_gpio_test cpld_checksum : VendorRequest

-- The arguments of `libusb_control_transfer` behind the handle. The type and the recipient are
-- LIBUSB_REQUEST_TYPE_VENDOR and LIBUSB_RECIPIENT_DEVICE in every call, and the timeout is 0.
pub record ControlRequest : Type 0 where
  pub direction : Direction
  pub request : VendorRequest
  pub value : ℕ
  pub index : ℕ
  -- What an OUT transfer sends; an IN transfer sends nothing.
  pub payload : List ℕ
  pub size : ℕ

-- The return value, and what an IN transfer wrote to the caller's buffer.
pub record ControlReply : Type 0 where
  pub result : ℤ
  pub received : List ℕ

-- A return value with the number that comes back through a pointer.
pub record Reply : Type 0 where
  pub result : ℤ
  pub output : ℕ

-- The fields of `struct libusb_device_descriptor` that the code reads.
pub record Descriptor : Type 0 where
  pub vendor : ℕ
  pub product : ℕ
  pub serial_index : ℕ

-- The arrays of `struct hackrf_device_list` that the code allocates.
pub data ListArray : Type 0 where
  serial_numbers usb_board_ids usb_device_index : ListArray

pub data Call : Type 0 where
  context_init context_exit : Call
  control_transfer : ℕ → ControlRequest → Call
  -- `libusb_bulk_transfer`: handle, endpoint, offset into the data, length.
  bulk_transfer : ℕ → ℕ → ℕ → ℕ → Call
  get_device_descriptor : ℕ → Call
  get_device_list free_device_list : Call
  -- `libusb_get_string_descriptor_ascii`: handle, index.
  get_string_descriptor : ℕ → ℕ → Call
  open_device_with_vid_pid : ℕ → ℕ → Call
  open_device : ℕ → Call
  close : ℕ → Call
  get_active_config_descriptor : ℕ → Call
  kernel_driver_active : ℕ → ℕ → Call
  detach_kernel_driver : ℕ → ℕ → Call
  get_configuration : ℕ → Call
  set_configuration : ℕ → ℕ → Call
  claim_interface : ℕ → ℕ → Call
  release_interface : ℕ → ℕ → Call
  malloc_device free_device : Call
  calloc_transfers free_transfer_array : Call
  alloc_transfer : Call
  free_transfer : ℕ → Call
  submit_transfer : ℕ → Call
  cancel_transfer : ℕ → Call
  handle_events : Call
  pthread_create : Call
  pthread_join : Call
  -- The memory of a list of devices: the structure, its arrays, and the entry of a serial number.
  calloc_list free_list : Call
  calloc_array free_array : ListArray → Call
  duplicate_serial : Call
  free_serial : ℕ → Call

pub record Platform : Type 0 where
  pub init_context : List Call → ℤ
  pub control_reply : List Call → ℕ → ControlRequest → ControlReply
  pub bulk_reply : List Call → ℕ → ℕ → ℕ → ℕ → ℤ
  -- The result, and `bcdDevice`.
  pub descriptor_reply : List Call → ℕ → Reply
  -- The devices, or `none` for a negative count, and the descriptor of one.
  pub device_list : List Call → Option (List ℕ)
  pub describe : List Call → ℕ → Descriptor
  pub string_reply : List Call → ℕ → ℕ → ControlReply
  -- The handle, where 0 is NULL.
  pub open_with_vid_pid : List Call → ℕ → ℕ → ℕ
  -- The result, and the handle.
  pub open_reply : List Call → ℕ → Reply
  -- The result, and `bNumInterfaces`.
  pub config_descriptor_reply : List Call → ℕ → Reply
  pub driver_active : List Call → ℕ → ℕ → ℤ
  pub detach_driver : List Call → ℕ → ℕ → ℤ
  pub configuration_reply : List Call → ℕ → Reply
  pub configure : List Call → ℕ → ℕ → ℤ
  pub claim : List Call → ℕ → ℕ → ℤ
  -- Whether `malloc` and `calloc` give memory.
  pub malloc : List Call → Bool
  -- The transfer, or NULL.
  pub new_transfer : List Call → Option ℕ
  pub submit : List Call → ℕ → ℤ
  pub events : List Call → ℤ
  pub create_thread : List Call → ℤ
  pub join_thread : List Call → ℤ

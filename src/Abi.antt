-- ===== src/Abi.antt =====
-- include/linux/firewire-cdev.h: the structures and requests of the kernel's character device that
-- the library uses. A field that holds an address stands here as the memory behind it, `none` for a
-- null pointer; a closure is the address of an object.
use libhinawa.Base.{ℕ, List, Option}
use libhinawa.Enums.{Tcode, Rcode}
use libhinawa.CycleTime.{CycleTime}

-- `struct fw_cdev_event_bus_reset`
pub record BusReset : Type 0 where
  pub node_id : ℕ
  pub local_node_id : ℕ
  pub bm_node_id : ℕ
  pub irm_node_id : ℕ
  pub root_node_id : ℕ
  pub generation : ℕ

-- `struct fw_cdev_get_info`; the configuration ROM is an array of quadlets.
pub record GetInfo : Type 0 where
  pub version : ℕ
  pub rom_length : ℕ
  pub rom : List ℕ
  pub bus_reset : BusReset
  pub bus_reset_closure : ℕ
  pub card : ℕ

-- `struct fw_cdev_send_request`
pub record SendRequest : Type 0 where
  pub tcode : Tcode
  pub length : ℕ
  pub offset : ℕ
  pub closure : ℕ
  pub payload : Option (List ℕ)
  pub generation : ℕ

-- `struct fw_cdev_send_response`
pub record SendResponse : Type 0 where
  pub rcode : Rcode
  pub length : ℕ
  pub payload : Option (List ℕ)
  pub handle : ℕ

-- `struct fw_cdev_allocate`
pub record Allocate : Type 0 where
  pub offset : ℕ
  pub closure : ℕ
  pub length : ℕ
  pub handle : ℕ
  pub region_end : ℕ

-- `struct fw_cdev_deallocate`
pub record Deallocate : Type 0 where
  pub handle : ℕ

-- `FW_CDEV_IOC_*`
pub data Request : Type 0 where
  get_info send_request allocate deallocate send_response get_cycle_timer2 : Request

-- The structure that each request reads and writes.
abbrev pub Args : Request → Type 0
Args get_info = GetInfo
Args send_request = SendRequest
Args allocate = Allocate
Args deallocate = Deallocate
Args send_response = SendResponse
Args get_cycle_timer2 = CycleTime

-- `struct fw_cdev_event_response` and `response2`
pub record EventResponse : Type 0 where
  pub rcode : Rcode
  pub length : ℕ
  pub payload : List ℕ

pub record EventResponse2 : Type 0 where
  pub rcode : Rcode
  pub length : ℕ
  pub request_tstamp : ℕ
  pub response_tstamp : ℕ
  pub payload : List ℕ

-- `struct fw_cdev_event_request`, `request2` and `request3`
pub record EventRequest : Type 0 where
  pub tcode : Tcode
  pub offset : ℕ
  pub handle : ℕ
  pub length : ℕ
  pub payload : List ℕ

pub record EventRequest2 : Type 0 where
  pub tcode : Tcode
  pub offset : ℕ
  pub source_node_id : ℕ
  pub destination_node_id : ℕ
  pub card : ℕ
  pub generation : ℕ
  pub handle : ℕ
  pub length : ℕ
  pub payload : List ℕ

pub record EventRequest3 : Type 0 where
  pub tcode : Tcode
  pub offset : ℕ
  pub source_node_id : ℕ
  pub destination_node_id : ℕ
  pub card : ℕ
  pub generation : ℕ
  pub handle : ℕ
  pub length : ℕ
  pub tstamp : ℕ
  pub payload : List ℕ

-- `union fw_cdev_event` by its `type`
pub data EventBody : Type 0 where
  bus_reset : EventBody
  response : EventResponse → EventBody
  response2 : EventResponse2 → EventBody
  request : EventRequest → EventBody
  request2 : EventRequest2 → EventBody
  request3 : EventRequest3 → EventBody
  other : ℕ → EventBody

pub record Event : Type 0 where
  pub closure : ℕ
  pub body : EventBody

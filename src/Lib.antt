-- ===== src/Lib.antt =====
-- The UWB hardware abstraction layer of the device tree (uwb/halimpl), with the fingerprint handler
-- (udfps) and the start of the device (init), as executable definitions.
--
-- The layer stands between the Android UWB service and an NXP chip. The service writes UCI packets
-- through the HAL (uwb/halimpl/hal), which inspects and changes them and hands them to the transport
-- layer (uwb/halimpl/tml); its reader thread posts what the chip sends to a queue, and the HAL's
-- client thread passes it on. The HAL and the country handling read settings from a cascade of
-- configuration files (uwb/halimpl/utils/phNxpConfig.cc). Retries of a command use a small table of
-- timers (uwb/halimpl/tml/phOsalUwb_Timer.cc), whose expiry is a message on the same queue.
--
-- Prelude     shared names: native numbers and their tests, list operations and their lemmas
-- Int         signed numbers, for the VERSION of a file and the offset of a power
-- Status      uwb/halimpl/inc/common/phUwbStatus.h: the status words
-- Timer       uwb/halimpl/tml/phOsalUwb_Timer.cc: `create`, `start`, `stop`, `delete`, `cleanup`,
--             `expired` and `deferred_call` are the phOsalUwb_Timer functions on the table apTimerInfo
-- Queue       uwb/halimpl/tml/phDal4Uwb_messageQueueLib.cc: `msgsnd`, `msgrcv` and `msgctl` on
--             linked items in a heap, in which an access to an item that is not there gives none, and in
--             `msgctl` a result of its own
-- Tml         uwb/halimpl/tml/phTmlUwb.cc: `init`, `shutdown`, `write`, `read`, the aborts and the
--             deferred callbacks on the context gpphTmlUwb_Context; Tml/Threads has the reader and
--             the writer as a step relation, in which what runs under wait_busy_lock is one step
-- Tml/Spi     uwb/halimpl/tml/phTmlUwb_spi.cc, and phTmlUwb_Spi_Reset and the other resets of
--             phTmlUwb.cc, with the read that is under way while a reset waits
-- Uci/Tlv     get_input_map and get_conf_map of uwb/halimpl/utils/phNxpUciHal_utils.cc
-- Uci/Parse   phNxpUciHal_parse of uwb/halimpl/hal/phNxpUciHal.cc
-- Uci/AppConfig   handlingVendorSpecificAppConfig of the same file
-- Uci/Country     phNxpUciHal_applyCountryCaps of uwb/halimpl/hal/phNxpUciHal_ext.cc
-- Uci/Command     phNxpUciHal_process_ext_cmd_rsp of the same file
-- Hal/CapsInfo    phNxpUciHal_parse_get_capsInfo of uwb/halimpl/hal/phNxpUciHal.cc
-- Hal/Receive     phNxpUciHal_read_complete and phNxpUciHal_process_response of the same file, with
--             phNxpUciHal_process_ext_rsp of uwb/halimpl/hal/phNxpUciHal_ext.cc; Receive/State has the
--             part of nxpucihal_ctrl that they use, and the calls of the stack and of the transport
--             layer are a list in it
-- Hal/Session     phNxpUciHal_send_ext_cmd and the HAL's own commands; Session/Vendor has
--             phNxpUciHal_applyVendorConfig, Session/Boot phNxpUciHal_coreInitialization and
--             Session/Application phNxpUciHal_sessionInitialization and the binding
-- Hal/Calibration, Hal/CountryCode
--             the extcal_do functions of uwb/halimpl/hal/phNxpUciHal_ext.cc, and
--             phNxpUciHal_handle_set_country_code, which uses them, Uci/Country and Config/Cascade
-- Hal/TxPower     phNxpUciHal_updateTxPower and its two callers; the offset is that of Uci/Country,
--             whose `power_updates` are the calls of phNxpUciHal_setCalibParamTxPower; Hal/CountryCode
--             makes them, in `set_powers`
-- Hal/Write       phNxpUciHal_write, on Uci/Parse, Uci/AppConfig, Hal/TxPower and Uci/Command
-- Hal/Client      phNxpUciHal_client_thread, on the message queue of Queue
-- Hal/Lifecycle   phNxpUciHal_open and phNxpUciHal_close, on Tml, Timer and Config/Cascade
-- Fwd/Apdu    uwb/halimpl/fwd/sr1xx/phNxpUciHal_fwd.cc: the messages to and from the boot ROM, on
--             a link that keeps the two message buffers and the log of the calls of the device
-- Fwd/Command, Fwd/Info, Fwd/Master, Fwd/Download
--             phHbci_PutCommand, phHbci_GetInfo with phHbci_GetDeviceLcInfo and
--             phHbci_GetChipIdInfo, phHbci_Master, and phNxpUciHal_fw_download of the same file
-- Monitor     the list of semaphores and the monitor of uwb/halimpl/utils/phNxpUciHal_utils.cc, with
--             phNxpUciHal_init_cb_data, phNxpUciHal_cleanup_cb_data and phNxpUciHal_sem_timed_wait_sec
-- Udfps       udfps/UdfpsHandler.cpp, beside the layer: the fingerprint handler, with its events as a
--             list, and its polling thread
-- Init        init: vendor_load_properties and what it calls, on the properties of the system
-- Config/Reader   CUwbNxpConfig::readConfig of uwb/halimpl/utils/phNxpConfig.cc, a character a step
-- Config/File, Config/Region, Config/Cascade
--             CUwbNxpConfig, RegionCodeMap and CascadeConfig with the NxpConfig functions
--
-- Numbers are natural numbers, and what wraps around in the code has its modulus written out.
-- Pointers that are only compared or passed on are numbers; 0 is NULL. What the operating system
-- or the chip returns is an argument, and the calls that leave a component are part of its result.
-- Fuel: the loop over the entries of a capability report and that over COUNTRY_CODE_CAPS have the
-- length of the data, of which each round takes at least a byte; the walk over a queue has a number
-- of rounds that the number of its items bounds. The loops over the parameters of
-- SESSION_SET_APP_CONFIG have an index that wraps around and need not end; they take their fuel as an
-- argument and give none where it is used up. The loop of a command takes the list of what its rounds
-- meet. phHbci_PutCommand has a round for each full block of the image and one more; phHbci_Master
-- goes on as long as the boot ROM asks for the image again and takes its fuel as an argument. The
-- walks over the list of semaphores have a number of rounds that the number of its nodes bounds. The
-- boot ROM is a function from the log of the calls so far to what the last one gives; the download's
-- options are those that setOpts sets. phNxpUciHal_coreInitialization tries the download six times
-- at most and has a round for each; a download or a vendor's configuration that does not return is
-- none. The client thread has a round for each message.
-- The loops of parseAntennaConfig and phNxpUciHal_parseCoreDeviceInfoRsp have an index that wraps
-- around too; the loop of phNxpUciHal_parse_get_capsInfo has the length of the packet. The chip is a
-- function from the commands that have been sent so far, the last one included, to the outcome of the
-- last one. A read behind the end of a packet gives 0, but for parseAntennaConfig, whose buffer holds
-- what earlier blocks have left in it, an argument. What a read behind the values of a country gives,
-- and what phOsalUwb_Timer_Expired does to an id that no timer has, is not modelled: 0 and no change
-- stand in for them.
--
-- Not modelled: the version information, phDal4Uwb_msgrelease, the callback of the response timer,
-- logging and its levels, the service's binder glue, and the lights. Of RegionCodeMap and
-- CUwbNxpConfig the order of a hash table is taken to be that of insertion.
mod Prelude
mod Int
mod Status
pub mod Timer
pub mod Queue
pub mod Tml
pub mod Uci
pub mod Config
pub mod Hal
pub mod Fwd
pub mod Monitor
pub mod Udfps
pub mod Init

-- ===== src/Vdc/GetProp.antt =====
-- `vdc_getprop_cb` of venta/vdsd.c: the server reads properties of the connector or of the device.
pub mod Reply
pub mod Sensors
pub mod Connector
pub mod Device
pub mod Callback
pub mod Indices
pub mod Returns
pub mod Safe
pub mod Unlocking

-- ===== src/Parcels.antt =====
-- backend/app/services/parcel.py: the parcel of a point. The children read the site address of a parcel's
-- attributes, match it with the address that is searched, and choose a parcel; Identifiers looks one up by
-- its identifier.
pub mod Situs
pub mod Matching
pub mod Choice
pub mod Confidence
pub mod Identifiers
pub mod Lookups
